-- ===== src/Mid/Kept/Names.antt =====
-- The names in a block map stand where the blocks stood in the write.
use dcfs_client.Base.{
  ℕ, ◌*◌, suc, ◌≤◌, ◌≡◌, refl, sym, ap, ap₂, ◌∙◌, List, [], ◌∷◌, ◌++◌, map, Bytes, length,
  length-append, of_bytes, bytes_at, length-bytes_at, arith,
}
use mathlib.Core.List.{append_assoc}
use dcfs_client.Capsule.{datablock}
use dcfs_client.Cache.{BufDesc, hashlen}
use dcfs_client.Mid.{Env}
use dcfs_client.Mid.Payload.{join_hashes}
use dcfs_client.Mid.Payload.RoundTrip.{bytes_at-part, bytes_at-exact}
use dcfs_client.Mid.Kept.{AllDifferent, IsLogged, IsKept, WasKept-IsKept}
use dcfs_client.Mid.Kept.Blocks.{AllKept}

abbrev pub names_of : List (ℕ × Bytes) → List Bytes
names_of = map (λ b. b.1)

join_hashes-append :
    (xs ys : List Bytes) → join_hashes (xs ++ ys) ≡ join_hashes xs ++ join_hashes ys
unfolding join_hashes
join_hashes-append [] ys = refl
join_hashes-append (x ∷ xs) ys =
    ap (◌++◌ (bytes_at (of_bytes x) 0 hashlen)) (join_hashes-append xs ys)
    ∙ sym (append_assoc (bytes_at (of_bytes x) 0 hashlen) (join_hashes xs) (join_hashes ys))

pub length-join_hashes : (xs : List Bytes) → length (join_hashes xs) ≡ length xs * hashlen
unfolding join_hashes
length-join_hashes [] = refl
length-join_hashes (x ∷ xs) = omega (
  arith,
  length-append (bytes_at (of_bytes x) 0 hashlen) (join_hashes xs),
  length-bytes_at (of_bytes x) 0 hashlen,
  length-join_hashes xs,
)

-- The hash behind some others.
pub bytes_at-join_hashes :
    (pre : List Bytes) (x : Bytes) (post : List Bytes)
    → length x ≡ hashlen
    → bytes_at (of_bytes (join_hashes (pre ++ x ∷ post))) (length pre * hashlen) hashlen ≡ x
unfolding join_hashes
bytes_at-join_hashes pre x post l =
    let h = bytes_at (of_bytes x) 0 hashlen in
    let whole = join_hashes-append pre (x ∷ post) in
    ap₂ (λ (b : Bytes) (i : ℕ). bytes_at (of_bytes b) i hashlen) whole
      (sym (length-join_hashes pre))
    ∙ ap
        (bytes_at (of_bytes (join_hashes pre ++ (h ++ join_hashes post)))
          (length (join_hashes pre)))
        (sym (length-bytes_at (of_bytes x) 0 hashlen))
    ∙ bytes_at-part (join_hashes pre) h (join_hashes post)
    ∙ bytes_at-exact x hashlen l

module _ {S : Type 0} (env : Env S) (log : S → List Bytes) (ax : IsLogged env log) where
  pub length-AllKept :
      (dcname : Bytes) (ds : List BufDesc) (blocks : List (ℕ × Bytes)) (s : S)
      → AllKept env log dcname ds blocks s
      → length (names_of blocks) ≡ length ds
  unfolding AllKept
  length-AllKept dcname [] blocks s e = ap (λ (b : List (ℕ × Bytes)). length (names_of b)) e
  length-AllKept dcname (d ∷ ds) blocks s (prev, name, rest, is, small, here, k) =
      ap (λ (b : List (ℕ × Bytes)). length (names_of b)) is
      ∙ ap suc (length-AllKept dcname ds rest s k)

  -- The block behind `pre` in the write, and its name behind as many others.
  pub AllKept-at :
      (dcname : Bytes) (pre post : List BufDesc) (d : BufDesc) (blocks : List (ℕ × Bytes)) (s : S)
      → AllDifferent (log s)
      → AllKept env log dcname (pre ++ d ∷ post) blocks s
      → (before after : List Bytes) × (name prev : Bytes) × (names_of blocks
          ≡ before ++ name ∷ after)
        × (length before ≡ length pre)
        × (length name ≡ hashlen)
        × (length prev ≤ 32)
        × IsKept env dcname datablock (prev ∷ []) d.buf name s
  unfolding AllKept
  AllKept-at dcname [] post d blocks s different (prev, name, rest, is, small, here, k) = (
    [],
    names_of rest,
    name,
    prev,
    ap names_of is,
    refl,
    ax.digest.sizes _ name here.called,
    small,
    WasKept-IsKept env log dcname datablock (prev ∷ []) d.buf name s different here,
  )
  AllKept-at dcname (c ∷ pre) post d blocks s different (prev, name, rest, is, small, here, k) =
      let (before, after, nm, pr, e, l, size, short, kept) =
        AllKept-at dcname pre post d rest s different k in
      (name ∷ before, after, nm, pr, ap names_of is ∙ ap (◌∷◌ name) e, ap suc l, size, short, kept)
