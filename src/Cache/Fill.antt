-- ===== src/Cache/Fill.antt =====
-- `fillBmcache` and `fillDcache`: they change no content, and succeed on a backend that serves.
use dcfs_client.Base.{
  ℕ, zero, suc, ◌+◌, ◌≤◌, ◌<◌, ◌≡◌, refl, sym, subst, ◌∙◌, true, false, Option, none, some, Bytes,
  length, Memory, Outcome, ok, err, fault, arith, leb, ℕ_discrete, Bool-cases, memcpy, of_bytes,
  then-keeps, then-ok, inl, inr, if◌then◌else◌,
}
use dcfs_client.Crypto.{OpenSsl, decrypt_symmetric}
use dcfs_client.Cache.{
  Host, Cache, Reader, aes_pad_len, bm_check, backed, push_back, load_block, settle, fill_block,
  fill_blocks,
}
use dcfs_client.Cache.View.{IsValid, IsServing, AllLoad, view}

module _ (h : Host) (ssl : OpenSsl) (reader : Reader) (junk : Memory) where
  -- What filling does to a cache, also when it fails.
  pub record Fills (c d : Cache) : Type 0 where
    pub valid : IsValid d
    pub grows : c.count ≤ d.count
    pub keeps : (i : ℕ) → c.cached i ≡ true → d.cached i ≡ true
    pub same_bm : d.bm ≡ c.bm
    pub same_view : (i : ℕ) → view h ssl reader junk d i ≡ view h ssl reader junk c i
    pub same_dirty : (i : ℕ) → i < c.count → d.dirty i ≡ c.dirty i

  pub Fills-refl : (c : Cache) → IsValid c → Fills c c
  Fills-refl c v = record {
    valid = v;
    grows = omega arith;
    keeps = λ i e. e;
    same_bm = refl;
    same_view = λ i. refl;
    same_dirty = λ i l. refl;
  }

  pub Fills-trans : {c d e : Cache} → Fills c d → Fills d e → Fills c e
  Fills-trans f g = record {
    valid = g.valid;
    grows = omega arith;
    keeps = λ i e. g.keeps i (f.keeps i e);
    same_bm = g.same_bm ∙ f.same_bm;
    same_view = λ i. g.same_view i ∙ f.same_view i;
    same_dirty = λ i l. g.same_dirty i (omega (arith, f.grows)) ∙ f.same_dirty i l;
  }

  push_back-Fills : (c : Cache) → IsValid c → Fills c (push_back c)
  unfolding push_back
  push_back-Fills c v = record {
    valid = λ i e. ground (arith, v i);
    grows = omega arith;
    keeps = λ i e. ground (arith, v i);
    same_bm = refl;
    same_view = λ i. ground (arith, v i);
    same_dirty = λ i l. ground arith;
  }

  -- Whatever the backend answered, the block is cached exactly when the load succeeded.
  load_block-Fills :
      (idx : ℕ) (c : Cache)
      → idx < c.count
      → IsValid c
      → Fills c (load_block h ssl reader junk idx c).1
  unfolding load_block
  load_block-Fills idx c l v = elim (Bool-cases (c.cached idx)) [
    | inl e ↦ rw e (Fills-refl c v)
    | inr e ↦
        rw e (by_outcome e (backed h ssl reader junk (bm_check h ssl reader junk c.bm idx)) refl)
  ]
    where
      by_outcome :
          c.cached idx ≡ false
          → (r : Outcome Memory)
          → backed h ssl reader junk (bm_check h ssl reader junk c.bm idx) ≡ r
          → Fills c (settle h ssl reader junk idx r c).1
      by_outcome e (ok m) p = record {
        valid = λ i q. ground (arith, v i);
        grows = omega arith;
        keeps = λ i q. ground arith;
        same_bm = refl;
        same_view = λ i. elim (ℕ_discrete idx i) [
          | yes q ↦ rw (← q) (ground (arith, e, p))
          | no n ↦ ground arith
        ];
        same_dirty = λ i q. refl;
      }
      by_outcome e (err x) p = record {
        valid = λ i q. ground (arith, v i);
        grows = omega arith;
        keeps = λ i q. ground arith;
        same_bm = refl;
        same_view = λ i. ground (arith, e);
        same_dirty = λ i q. refl;
      }
      by_outcome e fault p = record {
        valid = λ i q. ground (arith, v i);
        grows = omega arith;
        keeps = λ i q. ground arith;
        same_bm = refl;
        same_view = λ i. ground (arith, e);
        same_dirty = λ i q. refl;
      }

  pub fill_block-Fills :
      (idx : ℕ) (c : Cache)
      → idx ≤ c.count
      → IsValid c
      → Fills c (fill_block h ssl reader junk idx c).1
  unfolding fill_block
  fill_block-Fills idx c l v = elim (Bool-cases (leb c.count idx)) [
    | inl e ↦ rw e (
        Fills-trans (push_back-Fills c v) (
          load_block-Fills idx (push_back c) (unfold push_back in ground arith)
            (push_back-Fills c v).valid))
    | inr e ↦ rw e (load_block-Fills idx c (ground arith) v)
  ]

  fill_block-cached :
      (idx : ℕ) (c : Cache)
      → (fill_block h ssl reader junk idx c).0 ≡ ok tt
      → (fill_block h ssl reader junk idx c).1.cached idx ≡ true
  unfolding fill_block load_block
  fill_block-cached idx c e = ground arith

  fill_block-count :
      (idx : ℕ) (c : Cache) → idx ≤ c.count → idx < (fill_block h ssl reader junk idx c).1.count
  unfolding fill_block load_block push_back
  fill_block-count idx c l = ground arith

  pub backed-total :
      (o : Option Bytes) → IsServing reader → (m : Memory) × (backed h ssl reader junk o ≡ ok m)
  unfolding backed
  backed-total none s = (_, refl)
  backed-total (some r) s =
      let (b, e, l) = s h.hashname r (h.block_size + aes_pad_len) in
      let plain = (decrypt_symmetric ssl h.aes_key none b 0).out in
      rw e (memcpy junk 0 (of_bytes plain) 0 (length plain), ground arith)

  fill_block-bm : (idx : ℕ) (c : Cache) → (fill_block h ssl reader junk idx c).1.bm ≡ c.bm
  unfolding fill_block load_block push_back
  fill_block-bm idx c = ground arith

  pub fill_block-total :
      (idx : ℕ) (c : Cache)
      → AllLoad h ssl reader junk c.bm
      → (fill_block h ssl reader junk idx c).0 ≡ ok tt
  unfolding fill_block load_block push_back
  fill_block-total idx c s =
      let d : Cache = if leb c.count idx then push_back c else c in
      let same : c.bm ≡ d.bm = ground arith in
      let (m, e) = subst (AllLoad h ssl reader junk) same s idx in
      elim (Bool-cases (d.cached idx)) [ inl p ↦ rw p refl | inr p ↦ rw (p, e) refl ]

  -- The loop from `idx` on: it fills, and where it succeeds every block of its range is cached.
  pub fill_blocks-Fills :
      (rounds idx : ℕ) (c : Cache)
      → idx ≤ c.count
      → IsValid c
      → Fills c (fill_blocks h ssl reader junk rounds idx c).1
  unfolding fill_blocks
  fill_blocks-Fills zero idx c l v = Fills-refl c v
  fill_blocks-Fills (suc n) idx c l v =
      let d = (fill_block h ssl reader junk idx c).1 in
      let f = fill_block-Fills idx c l v in
      then-keeps (Fills c) (fill_block h ssl reader junk idx c).0
        (λ _. fill_blocks h ssl reader junk n (idx + 1)) d f
        λ _ _.
          Fills-trans f
            (fill_blocks-Fills n (idx + 1) d (omega (arith, fill_block-count idx c l)) f.valid)

  pub fill_blocks-total :
      (rounds idx : ℕ) (c : Cache)
      → AllLoad h ssl reader junk c.bm
      → (fill_blocks h ssl reader junk rounds idx c).0 ≡ ok tt
  unfolding fill_blocks
  fill_blocks-total zero idx c s = refl
  fill_blocks-total (suc n) idx c s =
      let d = (fill_block h ssl reader junk idx c).1 in
      rw (fill_block-total idx c s) (
        fill_blocks-total n (idx + 1) d
          (subst (AllLoad h ssl reader junk) (sym (fill_block-bm idx c)) s))

  pub fill_blocks-cached :
      (rounds idx : ℕ) (c : Cache)
      → idx ≤ c.count
      → IsValid c
      → (fill_blocks h ssl reader junk rounds idx c).0 ≡ ok tt
      → (i : ℕ) → idx ≤ i
      → i < idx + rounds
      → (fill_blocks h ssl reader junk rounds idx c).1.cached i ≡ true
  unfolding fill_blocks
  fill_blocks-cached zero idx c l v e i a b = absurd (omega arith)
  fill_blocks-cached (suc n) idx c l v e i a b =
      let d = (fill_block h ssl reader junk idx c).1 in
      let f = fill_block-Fills idx c l v in
      let l' : idx + 1 ≤ d.count = omega (arith, fill_block-count idx c l) in
      let (_, first, same) =
        then-ok (fill_block h ssl reader junk idx c).0
          (λ _. fill_blocks h ssl reader junk n (idx + 1)) d e in
      rw same (elim (ℕ_discrete idx i) [
        | yes q ↦
            (fill_blocks-Fills n (idx + 1) d l' f.valid).keeps i
              (subst (λ j. d.cached j ≡ true) q (fill_block-cached idx c first))
        | no q ↦
            fill_blocks-cached n (idx + 1) d l' f.valid (rw same at e) i (omega arith) (omega arith)
      ])
