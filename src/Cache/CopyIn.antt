-- ===== src/Cache/CopyIn.antt =====
-- The copies of `RecordCache::Write`, block by block.
use dcfs_client.Base.{
  ℕ, zero, suc, ◌+◌, ◌*◌, ◌≤◌, ◌<◌, ◌≡◌, ◌≢◌, refl, ap, ◌∙◌, true, some, Memory, memcpy, ok, arith,
  ℕ_discrete, ◌==◌, ==_iff, if◌then◌else◌,
}
use dcfs_client.Crypto.{OpenSsl}
use dcfs_client.Cache.{Host, Cache, Reader, put_at, patch, copy_in_blocks}
use dcfs_client.Cache.View.{IsValid, block_of}
use dcfs_client.Cache.CopyOut.{deref-cached, memcpy-in}

abbrev pub patched : Cache → ℕ → Memory → Cache
patched c i m = record c { blocks = put_at c.blocks i (some m) }

abbrev pub dirtied : Cache → ℕ → Cache
dirtied c i = record c { dirty = put_at c.dirty i true }

pub patch-cached :
    (c : Cache) (i d : ℕ) (src : Memory) (s n : ℕ)
    → IsValid c
    → c.cached i ≡ true
    → patch i d src s n c ≡ (ok tt, patched c i (memcpy (block_of c i) d src s n))
unfolding patch
patch-cached c i d src s n v e = rw (deref-cached c i v e) refl

pub block_of-patched :
    (c : Cache) (i k : ℕ) (m : Memory)
    → block_of (patched c i m) k ≡ (if i == k then m else block_of c k)
block_of-patched c i k m = ground arith

pub patched_self : (c : Cache) (i o : ℕ) (m : Memory) → block_of (patched c i m) i o ≡ m o
patched_self c i o m =
    let e : block_of (patched c i m) i ≡ m = ground arith in ap (λ (b : Memory). b o) e

pub patched_ne :
    (c : Cache) (i k : ℕ) (m : Memory) → i ≢ k → block_of (patched c i m) k ≡ block_of c k
patched_ne c i k m n = ground arith

-- What copying into cached blocks keeps.
pub record SameSlots (c d : Cache) : Type 0 where
  pub count : d.count ≡ c.count
  pub cached : (i : ℕ) → d.cached i ≡ c.cached i
  pub bm : d.bm ≡ c.bm
  pub valid : IsValid d
  pub still_dirty : (i : ℕ) → c.dirty i ≡ true → d.dirty i ≡ true

pub SameSlots-trans : {c d e : Cache} → SameSlots c d → SameSlots d e → SameSlots c e
SameSlots-trans f g = record {
  count = g.count ∙ f.count;
  cached = λ i. g.cached i ∙ f.cached i;
  bm = g.bm ∙ f.bm;
  valid = g.valid;
  still_dirty = λ i e. g.still_dirty i (f.still_dirty i e);
}

-- One block patched and marked.
pub put-SameSlots :
    (c : Cache) (i : ℕ) (m : Memory)
    → IsValid c
    → c.cached i ≡ true
    → SameSlots c (dirtied (patched c i m) i)
put-SameSlots c i m v e = record {
  count = refl;
  cached = λ j. refl;
  bm = refl;
  valid = λ j q. ground (arith, v j q);
  still_dirty = λ j q. ground arith;
}

module _ (h : Host) (ssl : OpenSsl) (reader : Reader) (junk : Memory) (buf : Memory) where
  -- After the loop blocks `idx` to `idx + n` hold the buffer from `cur` on.
  pub record PutBlocks (c : Cache) (n idx cur : ℕ) (d : Cache) : Type 0 where
    pub same : SameSlots c d
    pub blocks :
        (j o : ℕ)
        → j < n
        → o < h.block_size
        → block_of d (idx + j) o ≡ buf (cur + j * h.block_size + o)
    pub below : (k : ℕ) → k < idx → block_of d k ≡ block_of c k
    pub above : (k : ℕ) → idx + n ≤ k → block_of d k ≡ block_of c k
    pub marked : (k : ℕ) → idx ≤ k → k < idx + n → d.dirty k ≡ true

  pub SameSlots-refl : (c : Cache) → IsValid c → SameSlots c c
  SameSlots-refl c v = record {
    count = refl;
    cached = λ i. refl;
    bm = refl;
    valid = v;
    still_dirty = λ i e. e;
  }

  pub PutBlocks-none : (idx cur : ℕ) (c : Cache) → IsValid c → PutBlocks c 0 idx cur c
  PutBlocks-none idx cur c v = record {
    same = SameSlots-refl c v;
    blocks = λ j o a _. absurd (omega arith);
    below = λ k _. refl;
    above = λ k _. refl;
    marked = λ k a b. absurd (omega arith);
  }

  pub copy_in_blocks_lem :
      (n idx cur : ℕ) (c : Cache)
      → IsValid c
      → ((i : ℕ) → idx ≤ i → i < idx + n → c.cached i ≡ true)
      → (d : Cache) × (copy_in_blocks h ssl reader junk n idx cur buf c ≡ (ok tt, d))
        × PutBlocks c n idx cur d
  unfolding copy_in_blocks
  copy_in_blocks_lem zero idx cur c v r = (c, refl, PutBlocks-none idx cur c v)
  copy_in_blocks_lem (suc n) idx cur c v r =
      let bs = h.block_size in
      let m = memcpy (block_of c idx) 0 buf cur bs in
      let c' : Cache = dirtied (patched c idx m) idx in
      let e = r idx (omega arith) (omega arith) in
      let s = put-SameSlots c idx m v e in
      let (d, runs, put) =
        copy_in_blocks_lem n (idx + 1) (cur + bs) c' s.valid
          (λ i a b. r i (omega arith) (omega arith)) in
      (
        d,
        rw (patch-cached c idx 0 buf cur bs v e) runs,
        record {
          same = SameSlots-trans s put.same;
          blocks = λ j o. by_block d put j o;
          below = λ k l. put.below k (omega arith) ∙ block_of-patched c idx k m ∙ ground arith;
          above = λ k l. put.above k (omega arith) ∙ block_of-patched c idx k m ∙ ground arith;
          marked = λ k a b. elim (ℕ_discrete idx k) [
            | yes q ↦ put.same.still_dirty k (ground arith)
            | no q ↦ put.marked k (omega arith) (omega arith)
          ];
        },
      )
    where
      by_block :
          (d : Cache)
          → PutBlocks
              (dirtied (patched c idx (memcpy (block_of c idx) 0 buf cur h.block_size)) idx)
              n
              (idx + 1)
              (cur + h.block_size)
              d
          → (j o : ℕ) → j < suc n
          → o < h.block_size
          → block_of d (idx + j) o ≡ buf (cur + j * h.block_size + o)
      by_block d put zero o l lo =
          ap (λ (k : ℕ). block_of d k o) (omega arith)
          ∙ ap (λ (b : Memory). b o)
              (put.below idx (omega arith)
                ∙ block_of-patched c idx idx (memcpy (block_of c idx) 0 buf cur h.block_size))
          ∙ rw ((==_iff idx idx).1 refl) (
              memcpy-in (block_of c idx) buf 0 cur h.block_size o o lo (omega arith)
              ∙ ap buf (omega arith))
      by_block d put (suc j) o l lo =
          ap (λ (k : ℕ). block_of d k o) (omega arith)
          ∙ put.blocks j o (omega arith) lo
          ∙ ap buf (omega arith)
