-- ===== src/Cache/Flush/Places.antt =====
-- Where in the write of `FlushCache` a dirty block stands, when the dirty blocks are the first of the file.
use dcfs_client.Base.{
  none, ℕ, zero, suc, ◌+◌, ◌^◌, ◌%◌, ◌-◌, ◌*◌, ◌≤◌, ◌<◌, ◌≡◌, refl, ap, sym, ◌∙◌, true, List, [],
  ◌∷◌, ◌++◌, map, Bytes, length, Memory, bytes_at, length-bytes_at, Outcome, ok, err, fault,
  ok-injective, arith, ltb, Bool-cases, inl, inr, subst, ℕ_discrete,
}
use dcfs_client.Crypto.{OpenSsl, encrypt_symmetric}
use dcfs_client.Crypto.Laws.{IsCipher, IsPadded}
use dcfs_client.Cache.{Host, Cache, BufDesc, aes_pad_len}
use dcfs_client.Cache.View.{IsValid, block_of}
use dcfs_client.Cache.Flush.{seal_block, dirty_descs}
use dcfs_client.Cache.Flush.Descs.{dirty_blocks, opened, push_desc-ok, dirty_descs-opened}

module _ {ℓ κ} {A : Type ℓ} {B : Type κ} where
  pub length-map : (f : A → B) (xs : List A) → length (map f xs) ≡ length xs
  length-map f [] = refl
  length-map f (x ∷ xs) = ap suc (length-map f xs)

  -- An element of a mapped list comes from one at the same place.
  pub map-at :
      (f : A → B) (xs : List A) (pre : List B) (y : B) (post : List B)
      → map f xs ≡ pre ++ y ∷ post
      → (before after : List A) × (x : A) × (xs ≡ before ++ x ∷ after)
        × (length before ≡ length pre)
        × (f x ≡ y)
  map-at f [] [] y post e = cc
  map-at f [] (p ∷ pre) y post e = cc
  map-at f (x ∷ xs) [] y post e = ([], xs, x, refl, refl, cc)
  map-at f (x ∷ xs) (p ∷ pre) y post e =
      let (before, after, z, is, l, q) = map-at f xs pre y post cc in
      (x ∷ before, after, z, ap (◌∷◌ x) is, ap suc l, q)

abbrev pub AllShort : ℕ → List BufDesc → Type 0
AllShort n [] = Unit {0}
AllShort n (d ∷ ds) = (length d.buf ≤ n) × AllShort n ds

pub AllShort-at :
    (n : ℕ) (pre : List BufDesc) (d : BufDesc) (post : List BufDesc)
    → AllShort n (pre ++ d ∷ post)
    → length d.buf ≤ n
AllShort-at n [] d post (l, a) = l
AllShort-at n (c ∷ pre) d post (l, a) = AllShort-at n pre d post a

module _ (h : Host) (ssl : OpenSsl) where
  seal_block-short :
      IsPadded ssl
      → (idx : ℕ) (r : Outcome Memory) (d : BufDesc) → seal_block h ssl idx r ≡ ok d
      → length d.buf ≤ h.block_size + aes_pad_len
  unfolding seal_block
  seal_block-short pad idx (ok m) d e =
      let inlen = h.block_size % 2 ^ 32 in
      let plain = bytes_at m 0 inlen in
      elim (Bool-cases (ltb inlen (2 ^ 31))) [
        | inr long ↦ let no : fault ≡ ok d = rw long at e in cc
        | inl fits ↦
            let e' = rw fits at e in
            elim (Bool-cases (encrypt_symmetric ssl h.aes_key none plain 0).success) [
              | inl t ↦
                  ground (arith, e', pad.pads h.aes_key none plain 0 t, length-bytes_at m 0 inlen)
              | inr f ↦ ground (arith, e')
            ]
      ]
  seal_block-short pad idx (err x) d e = cc
  seal_block-short pad idx fault d e = cc

  pub dirty_descs-short :
      IsPadded ssl
      → (c : Cache) (rounds idx : ℕ) (descs : List BufDesc)
      → dirty_descs h ssl c rounds idx ≡ ok descs
      → AllShort (h.block_size + aes_pad_len) descs
  unfolding dirty_descs
  dirty_descs-short pad c zero idx descs e =
      subst (AllShort (h.block_size + aes_pad_len)) (ok-injective e) tt
  dirty_descs-short pad c (suc n) idx descs e = elim (Bool-cases (c.dirty idx)) [
    | inr clean ↦ dirty_descs-short pad c n (idx + 1) descs (rw clean at e)
    | inl dirty ↦
        let (d, ds, seals, rest, is) = push_desc-ok h ssl _ _ descs (rw dirty at e) in
        subst (AllShort (h.block_size + aes_pad_len)) (sym is)
          (seal_block-short pad idx _ d seals, dirty_descs-short pad c n (idx + 1) ds rest)
  ]

  module _ (c : Cache) (n : ℕ) (first : (i : ℕ) → c.dirty i ≡ ltb i n) where
    length-dirty_blocks :
        (rounds idx : ℕ) → n ≤ idx + rounds → length (dirty_blocks h ssl c rounds idx) ≡ n - idx
    unfolding dirty_blocks
    length-dirty_blocks zero idx l = omega arith
    length-dirty_blocks (suc rounds) idx l =
        ground (arith, first idx, length-dirty_blocks rounds (idx + 1) (omega arith))

    dirty_blocks-at :
        (rounds idx i : ℕ)
        → idx ≤ i
        → i < idx + rounds
        → i < n
        → (before after : List (ℕ × Bytes)) × (dirty_blocks h ssl c rounds idx
            ≡ before ++ (i * h.block_size, bytes_at (block_of c i) 0 h.block_size) ∷ after)
          × (length before ≡ i - idx)
    unfolding dirty_blocks
    dirty_blocks-at zero idx i l u s = absurd (omega arith)
    dirty_blocks-at (suc rounds) idx i l u s =
        let t : c.dirty idx ≡ true = first idx ∙ ground arith in
        elim (ℕ_discrete idx i) [
          | yes e ↦ (
            [],
            dirty_blocks h ssl c rounds (idx + 1),
            rw t (
                ap
                  (λ (j : ℕ).
                    (j * h.block_size, bytes_at (block_of c j) 0 h.block_size)
                    ∷ dirty_blocks h ssl c rounds (idx + 1))
                  e),
            omega arith,
          )
          | no ne ↦
              let (before, after, is, k) =
                dirty_blocks-at rounds (idx + 1) i (omega arith) (omega arith) s in
              (
                (idx * h.block_size, bytes_at (block_of c idx) 0 h.block_size) ∷ before,
                after,
                rw t (ap (◌∷◌ (idx * h.block_size, bytes_at (block_of c idx) 0 h.block_size)) is),
                omega arith,
              )
        ]

    -- What `FlushCache` hands to the backend when the dirty blocks are those below `n`: as many, and
    -- each stands at its number.
    pub dirty_descs-at :
        IsCipher ssl
        → h.block_size < 2 ^ 31
        → IsPadded ssl
        → IsValid c
        → ((i : ℕ) → c.dirty i ≡ true → c.cached i ≡ true)
        → n ≤ c.count
        → (descs : List BufDesc) (i : ℕ) → dirty_descs h ssl c c.count 0 ≡ ok descs
        → i < n
        → (length descs ≡ n)
          × (before after : List BufDesc) × (d : BufDesc) × (descs ≡ before ++ d ∷ after)
          × (length before ≡ i)
          × (length d.buf ≤ h.block_size + aes_pad_len)
          × (opened h ssl d ≡ (i * h.block_size, bytes_at (block_of c i) 0 h.block_size))
    dirty_descs-at cipher small pad v cached all descs i e l =
        let whole = dirty_descs-opened h ssl cipher small c v cached c.count 0 descs e in
        let (pre, post, is, k) = dirty_blocks-at c.count 0 i (omega arith) (omega arith) l in
        let (before, after, d, at, size, opens) =
          map-at (opened h ssl) descs pre _ post (whole ∙ is) in
        let count = length-dirty_blocks c.count 0 (omega arith) in
        let short =
          subst (AllShort (h.block_size + aes_pad_len)) at
            (dirty_descs-short pad c c.count 0 descs e) in
        (
          omega (arith, ap length whole, length-map (opened h ssl) descs, count),
          before,
          after,
          d,
          at,
          omega (arith, size, k),
          AllShort-at (h.block_size + aes_pad_len) before d after short,
          opens,
        )
