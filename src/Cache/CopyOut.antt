-- ===== src/Cache/CopyOut.antt =====
-- The copies of `RecordCache::Read`, byte by byte.
use dcfs_client.Base.{
  ℕ, zero, suc, ◌+◌, ◌-◌, ◌*◌, ◌≤◌, ◌<◌, ◌≡◌, refl, sym, ap, ap₂, block-le, mul_le, ◌∙◌, true,
  Memory, memcpy, ok, arith, ℕ_discrete, ◌==◌, if◌then◌else◌,
}
use Prim.Native.Nat.add
use native.Mathlib.Nat.{le_antisymm}
use dcfs_client.Crypto.{OpenSsl}
use dcfs_client.Cache.{Host, Cache, Reader, deref, copy_out_blocks}
use dcfs_client.Cache.View.{IsValid, block_of}

pub deref-cached :
    (c : Cache) (i : ℕ) → IsValid c → c.cached i ≡ true → deref i c ≡ (ok (block_of c i), c)
unfolding deref
deref-cached c i v e = ground (arith, v i e)

-- The copied range, and the bytes before and behind it.
pub memcpy-in :
    (dst src : Memory) (d s n o i : ℕ) → o < n → i ≡ d + o → memcpy dst d src s n i ≡ src (s + o)
unfolding memcpy
memcpy-in dst src d s n o i l e = rw e (let q : d + o - d ≡ o = omega arith in ground (arith, q))

pub memcpy-out :
    (dst src : Memory) (d s n i : ℕ)
    → (i < d → ⊥)
    → (i < d + n → ⊥)
    → memcpy dst d src s n i ≡ dst i
unfolding memcpy
memcpy-out dst src d s n i a b = ground arith

pub memcpy-before : (dst src : Memory) (d s n i : ℕ) → i < d → memcpy dst d src s n i ≡ dst i
unfolding memcpy
memcpy-before dst src d s n i a = ground arith

pub memcpy-behind : (dst src : Memory) (d s n i : ℕ) → d + n ≤ i → memcpy dst d src s n i ≡ dst i
unfolding memcpy
memcpy-behind dst src d s n i a = ground arith

module _ (h : Host) (ssl : OpenSsl) (reader : Reader) (junk : Memory) (c : Cache)
    (v : IsValid c) where
  -- After the loop the memory holds the blocks one after the other, and is the same around them.
  pub copy_out_blocks_lem :
      (n idx cur : ℕ) (buf : Memory)
      → ((i : ℕ) → idx ≤ i → i < idx + n → c.cached i ≡ true)
      → (end : Memory) × (copy_out_blocks h ssl reader junk n idx cur buf c ≡ (ok end, c))
        × ((j o : ℕ)
            → j < n
            → o < h.block_size
            → end (cur + j * h.block_size + o) ≡ block_of c (idx + j) o)
        × ((i : ℕ) → i < cur → end i ≡ buf i)
        × ((i : ℕ) → cur + n * h.block_size ≤ i → end i ≡ buf i)
  unfolding copy_out_blocks
  copy_out_blocks_lem zero idx cur buf r =
      (buf, refl, (λ j o l _. absurd (omega arith)), (λ i _. refl), λ i _. refl)
  copy_out_blocks_lem (suc n) idx cur buf r =
      let m = block_of c idx in
      let bs = h.block_size in
      let next = memcpy buf cur m 0 bs in
      let (end, runs, blocks, before, behind) =
        copy_out_blocks_lem n (idx + 1) (cur + bs) next
          (λ i a b. r i (omega arith) (omega arith)) in
      (
        end,
        rw (deref-cached c idx v (r idx (omega arith) (omega arith))) runs,
        (λ j o. by_block end m blocks before j o),
        (λ i l. before i (omega arith) ∙ memcpy-before buf m cur 0 bs i l),
        λ i l. behind i (omega arith) ∙ memcpy-behind buf m cur 0 bs i (omega arith),
      )
    where
      by_block :
          (end m : Memory)
          → ((j o : ℕ)
              → j < n
              → o < h.block_size
              → end (cur + h.block_size + j * h.block_size + o) ≡ block_of c (idx + 1 + j) o)
          → ((i : ℕ)
              → i < cur + h.block_size
              → end i ≡ memcpy buf cur (block_of c idx) 0 h.block_size i)
          → (j o : ℕ) → j < suc n
          → o < h.block_size
          → end (cur + j * h.block_size + o) ≡ block_of c (idx + j) o
      by_block end m blocks before zero o l lo =
          ap end (omega arith)
          ∙ before (cur + o) (omega arith)
          ∙ memcpy-in buf (block_of c idx) cur 0 h.block_size o (cur + o) lo refl
          ∙ ap₂ (block_of c) (omega arith) (omega arith)
      by_block end m blocks before (suc j) o l lo =
          ap end (omega arith)
          ∙ blocks j o (omega arith) lo
          ∙ ap (λ (k : ℕ). block_of c k o) (omega arith)

-- What a read of `size` bytes at byte `so` of block `st` leaves in `end`, where it ends before byte
-- `eo` of block `ed`: every byte asked for, and behind those what `buf` held, but for the byte at
-- `size`, which a read that reaches another block takes from the file.
pub record CopiesOut (bs : ℕ) (c : Cache) (st so ed eo size : ℕ) (buf end : Memory) : Type 0 where
  pub inside :
      (k o i : ℕ) → o < bs → i < size → st * bs + so + i ≡ k * bs + o → end i ≡ block_of c k o
  pub spill : end size ≡ (if st == ed then buf size else block_of c ed eo)
  pub behind : (i : ℕ) → size < i → end i ≡ buf i

module _ (bs : ℕ) (c : Cache) (st so size : ℕ) (buf : Memory) (in_block : so < bs) where
  pub one_block-CopiesOut :
      (eo : ℕ)
      → eo < bs
      → st * bs + so + size ≡ st * bs + eo
      → CopiesOut bs c st so st eo size buf (memcpy buf 0 (block_of c st) so size)
  one_block-CopiesOut eo l e = record {
    inside = λ k o i lo li p.
        let q : k ≡ st =
          le_antisymm (block-le k st bs (so + i) (omega arith) (omega arith))
            (block-le st k bs o (omega arith) lo) in
        let r : k * bs ≡ st * bs = ap (λ t. t * bs) q in
        memcpy-in buf (block_of c st) 0 so size i i li (omega arith)
        ∙ ap₂ (block_of c) (sym q) (omega arith);
    spill = memcpy-behind buf (block_of c st) 0 so size size (omega arith) ∙ ground arith;
    behind = λ i li. memcpy-behind buf (block_of c st) 0 so size i (omega arith);
  }

  abbrev pub first : Memory
  first = memcpy buf 0 (block_of c st) so (bs - so)

  -- `n` whole blocks stand between the first and the last.
  module _ (n eo spot : ℕ) (whole : Memory)
      (blocks : (j o : ℕ)
        → j < n
        → o < bs
        → whole (bs - so + j * bs + o) ≡ block_of c (st + 1 + j) o)
      (before : (i : ℕ) → i < bs - so → whole i ≡ first i)
      (after : (i : ℕ) → bs - so + n * bs ≤ i → whole i ≡ first i) (last : eo < bs)
      (spot_eq : spot ≡ bs - so + n * bs)
      (end_eq : st * bs + so + size ≡ (st + 1 + n) * bs + eo) where
    abbrev pub final : Memory
    final = memcpy whole spot (block_of c (st + 1 + n)) 0 (eo + 1)

    in_first :
        (k o i : ℕ) → o < bs → st * bs + so + i ≡ k * bs + o → k ≡ st → final i ≡ block_of c k o
    in_first k o i lo p e =
        let r : k * bs ≡ st * bs = ap (λ t. t * bs) e in
        memcpy-before whole (block_of c (st + 1 + n)) spot 0 (eo + 1) i (omega arith)
        ∙ before i (omega arith)
        ∙ memcpy-in buf (block_of c st) 0 so (bs - so) i i (omega arith) (omega arith)
        ∙ ap₂ (block_of c) (sym e) (omega arith)

    in_middle :
        (j k o i : ℕ)
        → o < bs
        → st * bs + so + i ≡ k * bs + o
        → k ≡ st + 1 + j
        → j < n
        → final i ≡ block_of c k o
    in_middle j k o i lo p e l =
        let r : k * bs ≡ (st + 1 + j) * bs = ap (λ t. t * bs) e in
        let m : (j + 1) * bs ≤ n * bs = mul_le (j + 1) n bs (omega arith) in
        memcpy-before whole (block_of c (st + 1 + n)) spot 0 (eo + 1) i (omega arith)
        ∙ ap whole (omega arith)
        ∙ blocks j o l lo
        ∙ ap (λ (t : ℕ). block_of c t o) (sym e)

    in_last :
        (k o i : ℕ)
        → i < size
        → st * bs + so + i ≡ k * bs + o
        → k ≡ st + 1 + n
        → final i ≡ block_of c k o
    in_last k o i li p e =
        let r : k * bs ≡ (st + 1 + n) * bs = ap (λ t. t * bs) e in
        memcpy-in whole (block_of c (st + 1 + n)) spot 0 (eo + 1) o i (omega arith) (omega arith)
        ∙ ap₂ (block_of c) (sym e) (omega arith)

    many-inside :
        (k o i : ℕ) → o < bs → i < size → st * bs + so + i ≡ k * bs + o → final i ≡ block_of c k o
    many-inside k o i lo li p =
        let low = block-le st k bs o (omega arith) lo in
        let high = block-le k (st + 1 + n) bs eo (omega arith) last in
        elim (ℕ_discrete k st) [
          | yes e ↦ in_first k o i lo p e
          | no e ↦ elim (ℕ_discrete k (st + 1 + n)) [
            | yes e' ↦ in_last k o i li p e'
            | no e' ↦ in_middle (k - (st + 1)) k o i lo p (omega arith) (omega arith)
          ]
        ]

    pub many_blocks-CopiesOut : CopiesOut bs c st so (st + 1 + n) eo size buf final
    many_blocks-CopiesOut = record {
      inside = many-inside;
      spill =
          memcpy-in whole (block_of c (st + 1 + n)) spot 0 (eo + 1) eo size (omega arith)
            (omega arith)
          ∙ ground (arith, add.zero eo);
      behind = λ i l.
          memcpy-behind whole (block_of c (st + 1 + n)) spot 0 (eo + 1) i (omega arith)
          ∙ after i (omega arith)
          ∙ memcpy-behind buf (block_of c st) 0 so (bs - so) i (omega arith);
    }
