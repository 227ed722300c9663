-- ===== src/Cache/ReadBack.antt =====
-- `RecordCache::Read` returns the content of the file.
use dcfs_client.Base.{
  ℕ, ◌+◌, ◌-◌, ◌*◌, ◌/◌, ◌%◌, ◌^◌, ◌≤◌, ◌<◌, ◌≡◌, ◌≢◌, refl, sym, ap, subst, ◌∙◌, true, false,
  Memory, memcpy, Outcome, ok, arith, add64, ℕ_discrete, ◌==◌, block-le, div-mul-mod, mod-lt_size,
  div_mono, if◌then◌else◌,
}
use native.Mathlib.Nat.{mod-eq_of_lt}
use dcfs_client.Crypto.{OpenSsl}
use dcfs_client.Cache.{Host, Cache, Reader, deref, copy_range, copy_out, fill_dcache, read}
use dcfs_client.Cache.View.{IsValid, IsServed, block_of, view-cached, content}
use dcfs_client.Cache.Load.{
  fill_dcache-Fills, fill_dcache-total, fill_dcache-cached, fill_dcache-content,
}
use dcfs_client.Cache.CopyOut.{
  CopiesOut, copy_out_blocks_lem, deref-cached, first, one_block-CopiesOut, many_blocks-CopiesOut,
}

module _ (h : Host) (ssl : OpenSsl) (reader : Reader) (junk : Memory) where
  abbrev bs : ℕ
  bs = h.block_size

  abbrev pub Copied : Cache → ℕ → ℕ → ℕ → ℕ → ℕ → Memory → Outcome Memory × Cache → Type 0
  Copied c st so ed eo size buf r =
      (end : Memory) × (r ≡ (ok end, c)) × CopiesOut bs c st so ed eo size buf end

  module _ (c : Cache) (v : IsValid c) (st so size : ℕ) (buf : Memory) (in_block : so < bs) where
    get : (i : ℕ) → c.cached i ≡ true → deref i c ≡ (ok (block_of c i), c)
    get i e = deref-cached c i v e

    module _ (ed eo : ℕ) (l : eo < bs) (e : st * bs + so + size ≡ ed * bs + eo)
        (r : (i : ℕ) → st ≤ i → i ≤ ed → c.cached i ≡ true) where
      abbrev Result : Type 0
      Result = Copied c st so ed eo size buf (copy_range h ssl reader junk st so ed eo size buf c)

      within_block : st ≡ ed → Result
      unfolding copy_range
      within_block same =
          let end = memcpy buf 0 (block_of c st) so size in
          let t : (st == ed) ≡ true = ground arith in
          (
            end,
            rw (t, get st (r st (omega arith) (omega arith))) refl,
            subst (λ (k : ℕ). CopiesOut bs c st so k eo size buf end) same
                (one_block-CopiesOut bs c st so size buf in_block eo l
                  (e ∙ ap (λ (k : ℕ). k * bs + eo) (sym same))),
          )

      next_block : st + 1 ≡ ed → Result
      unfolding copy_range
      next_block same =
          let head = first bs c st so size buf in_block in
          let end = memcpy head (bs - so) (block_of c ed) 0 (eo + 1) in
          let t : (st == ed) ≡ false = ground arith in
          let u : (st + 1 == ed) ≡ true = ground arith in
          let z : st + 1 + 0 ≡ ed = omega arith in
          (
            end,
            rw
                (
                  t,
                  u,
                  get st (r st (omega arith) (omega arith)),
                  get ed (r ed (omega arith) (omega arith)),
                )
                refl,
            subst
                (λ (k : ℕ).
                  CopiesOut bs c st so k eo size buf
                    (memcpy head (bs - so) (block_of c k) 0 (eo + 1)))
                z
                (many_blocks-CopiesOut bs c st so size buf in_block 0 eo (bs - so) head
                  (λ j o a _. absurd (omega arith)) (λ i _. refl) (λ i _. refl) l (omega arith)
                  (e ∙ ap (λ (k : ℕ). k * bs + eo) (sym z))),
          )

      far_block : st ≢ ed → st + 1 ≢ ed → st ≤ ed → Result
      unfolding copy_range
      far_block d d' le =
          let head = first bs c st so size buf in_block in
          let n = ed - (st + 1) in
          let t : (st == ed) ≡ false = ground arith in
          let u : (st + 1 == ed) ≡ false = ground arith in
          let z : st + 1 + n ≡ ed = omega arith in
          let (whole, runs, blocks, before, after) =
            copy_out_blocks_lem h ssl reader junk c v n (st + 1) (bs - so) head
              (λ i a b. r i (omega arith) (omega arith)) in
          let spot = bs - so + n * bs in
          (
            memcpy whole spot (block_of c ed) 0 (eo + 1),
            rw
                (
                  t,
                  u,
                  get st (r st (omega arith) (omega arith)),
                  runs,
                  get ed (r ed (omega arith) (omega arith)),
                )
                refl,
            subst
                (λ (k : ℕ).
                  CopiesOut bs c st so k eo size buf (memcpy whole spot (block_of c k) 0 (eo + 1)))
                z
                (many_blocks-CopiesOut bs c st so size buf in_block n eo spot whole blocks before
                  after l refl (e ∙ ap (λ (k : ℕ). k * bs + eo) (sym z))),
          )

      -- The copies go through, whichever of the three shapes the range has.
      copy_range_lem : Result
      copy_range_lem =
          let le = block-le st ed bs eo (omega arith) l in
          elim (ℕ_discrete st ed) [
            | yes same ↦ within_block same
            | no d ↦ elim (ℕ_discrete (st + 1) ed) [
              | yes same ↦ next_block same
              | no d' ↦ far_block d d' le
            ]
          ]

module _ (h : Host) (ssl : OpenSsl) (reader : Reader) (junk : Memory) (c : Cache) (offset size : ℕ)
    (buf : Memory) (valid : IsValid c) (served : IsServed h ssl reader junk c)
    (pos : 0 < h.block_size) (some_bytes : 0 < size) (fits : offset + size < 2 ^ 64) where
  abbrev st : ℕ
  st = offset / h.block_size

  abbrev ed : ℕ
  ed = (offset + size) / h.block_size

  -- The state of the cache after the read.
  abbrev pub after_read : Cache
  after_read = (fill_dcache h ssl reader junk offset size c).1

  add64_lem : add64 offset size ≡ offset + size
  add64_lem = mod-eq_of_lt fits

  abbrev AllCached : Type 0
  AllCached = (i : ℕ) → st ≤ i → i ≤ ed → after_read.cached i ≡ true

  filled : AllCached
  filled i a b =
      fill_dcache-cached h ssl reader junk offset size c valid
        (fill_dcache-total h ssl reader junk offset size c served) i a (rw add64_lem b)

  copied :
      Copied h ssl reader junk after_read st
        (offset % h.block_size)
        ed
        ((offset + size) % h.block_size)
        size
        buf
        (read h ssl reader junk buf offset size c)
  unfolding read copy_out
  copied =
      let w = (fill_dcache-Fills h ssl reader junk offset size c valid).valid in
      let z : (size == 0) ≡ false = ground arith in
      rw (z, fill_dcache-total h ssl reader junk offset size c served, add64_lem)
        (copy_range_lem h ssl reader junk after_read w st (offset % h.block_size) size buf
          (mod-lt_size offset h.block_size pos) ed ((offset + size) % h.block_size)
          (mod-lt_size (offset + size) h.block_size pos)
          (omega (
            arith,
            div-mul-mod offset h.block_size pos,
            div-mul-mod (offset + size) h.block_size pos,
          ))
          filled)

  -- The byte at `p`, where its block is cached after the read.
  content-cached :
      (p : ℕ)
      → after_read.cached (p / h.block_size) ≡ true
      → block_of after_read (p / h.block_size) (p % h.block_size) ≡ content h ssl reader junk c p
  content-cached p e =
      let f = fill_dcache-Fills h ssl reader junk offset size c valid in
      let same = ap (λ (m : Memory). m (p % h.block_size)) (f.same_view (p / h.block_size)) in
      sym (view-cached h ssl reader junk after_read (p / h.block_size) (p % h.block_size) e) ∙ same

  -- On a backend that has what the cache needs (`IsServed`), with blocks of at least one byte, a read
  -- of at least one byte, in a valid cache and with no wrap of `offset + size`, succeeds. Each of the bytes asked for is the file's, the bytes behind
  -- `buf[size]` are untouched, the content of the file is the same afterwards, and the cache valid.
  pub read-content :
      (end : Memory) × (read h ssl reader junk buf offset size c ≡ (ok end, after_read))
      × ((i : ℕ) → i < size → end i ≡ content h ssl reader junk c (offset + i))
      × ((i : ℕ) → size < i → end i ≡ buf i)
      × ((p : ℕ) → content h ssl reader junk after_read p ≡ content h ssl reader junk c p)
      × IsValid after_read
  read-content =
      let (end, runs, copies) = copied in
      (
        end,
        runs,
        (λ i l.
            let p = offset + i in
            copies.inside (p / h.block_size) (p % h.block_size) i (mod-lt_size p h.block_size pos) l
              (omega (arith, div-mul-mod offset h.block_size pos, div-mul-mod p h.block_size pos))
            ∙ content-cached p (
                filled (p / h.block_size) (div_mono offset p h.block_size pos (omega arith))
                  (div_mono p (offset + size) h.block_size pos (omega arith)))),
        copies.behind,
        fill_dcache-content h ssl reader junk offset size c valid,
        (fill_dcache-Fills h ssl reader junk offset size c valid).valid,
      )

  -- Under the conditions of `read-content`, where `offset + size` is in another block than `offset`
  -- a read also writes `buf[size]`, one byte more than it was asked for: the file's byte at
  -- `offset + size`. Where it is in the same block, `buf[size]` is untouched.
  pub read_spill :
      (end : Memory) × (read h ssl reader junk buf offset size c ≡ (ok end, after_read))
      × (end size ≡ (if st == ed then buf size else content h ssl reader junk c (offset + size)))
  read_spill =
      let (end, runs, copies) = copied in
      let last = content-cached (offset + size) (
        filled ed (div_mono offset (offset + size) h.block_size pos (omega arith)) (omega arith)) in
      (end, runs, copies.spill ∙ ap (λ (x : ℕ). if st == ed then buf size else x) last)
