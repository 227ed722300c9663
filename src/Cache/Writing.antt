-- ===== src/Cache/Writing.antt =====
-- `RecordCache::Write` as a whole: the file's content after it.
use dcfs_client.Base.{
  ℕ, ◌+◌, ◌/◌, ◌%◌, ◌^◌, ◌≤◌, ◌<◌, ◌≡◌, refl, sym, ap, ◌∙◌, true, false, Option, Memory, ok, arith,
  add64, ◌==◌, Bool-cases, inl, inr, div-mul-mod, mod-lt_size, div_mono, if◌then◌else◌,
}
use native.Mathlib.Nat.{mod-eq_of_lt}
use dcfs_client.Crypto.{OpenSsl}
use dcfs_client.Cache.{Host, Cache, Reader, copy_in, fill_bmcache, fill_dcache, write}
use dcfs_client.Cache.View.{
  IsValid, IsServed, block_of, view, view-cached, view-stored, stored, content,
}
use dcfs_client.Cache.Fill.{Fills}
use dcfs_client.Cache.Load.{
  fill_dcache-Fills, fill_dcache-total, fill_dcache-cached, fill_bmcache-done, IsServed-done,
}
use dcfs_client.Cache.WriteThrough.{WritesIn}
use dcfs_client.Cache.WriteBack.{patch_range_lem}

module _ (h : Host) (ssl : OpenSsl) (reader : Reader) (junk : Memory) (c : Cache) (offset size : ℕ)
    (buf : Memory) (valid : IsValid c) (served : IsServed h ssl reader junk c)
    (pos : 0 < h.block_size) (some_bytes : 0 < size) (fits : offset + size < 2 ^ 64) where
  abbrev bs : ℕ
  bs = h.block_size

  abbrev st : ℕ
  st = offset / bs

  abbrev ed : ℕ
  ed = (offset + size) / bs

  abbrev filled : Cache
  filled = (fill_dcache h ssl reader junk offset size c).1

  add64_lem : add64 offset size ≡ offset + size
  add64_lem = mod-eq_of_lt fits

  all_cached : (i : ℕ) → st ≤ i → i ≤ ed → filled.cached i ≡ true
  all_cached i a b =
      fill_dcache-cached h ssl reader junk offset size c valid
        (fill_dcache-total h ssl reader junk offset size c served) i a (rw add64_lem b)

  fills : Fills h ssl reader junk (fill_bmcache h ssl reader junk c).1 filled
  fills = fill_dcache-Fills h ssl reader junk offset size c valid

  patched_all :
      (d : Cache) × (write h ssl reader junk buf offset size c ≡ (ok tt, d))
      × WritesIn bs filled st (offset % bs) ed ((offset + size) % bs) size buf d
  unfolding write copy_in
  patched_all =
      let z : (size == 0) ≡ false = ground arith in
      rw (z, fill_dcache-total h ssl reader junk offset size c served, add64_lem)
        (patch_range_lem h ssl reader junk filled fills.valid st (offset % bs) size buf
          (mod-lt_size offset bs pos) ((offset + size) % bs) (mod-lt_size (offset + size) bs pos)
          (all_cached st (omega arith) (div_mono offset (offset + size) bs pos (omega arith))) ed
          (omega (arith, div-mul-mod offset bs pos, div-mul-mod (offset + size) bs pos)) all_cached)

  module _ (d : Cache)
      (w : WritesIn bs filled st (offset % bs) ed ((offset + size) % bs) size buf d) where
    -- The block map is loaded in `d`, so its content is its view.
    content-view :
        (p : ℕ) → content h ssl reader junk d p ≡ view h ssl reader junk d (p / bs) (p % bs)
    content-view p = rw (fill_bmcache-done h ssl reader junk c d (w.same.bm ∙ fills.same_bm)) refl

    -- Where the copies left a byte alone, the content has not changed.
    content-kept :
        (p : ℕ)
        → block_of d (p / bs) (p % bs) ≡ block_of filled (p / bs) (p % bs)
        → content h ssl reader junk d p ≡ content h ssl reader junk c p
    content-kept p e =
        content-view p
        ∙ elim (Bool-cases (filled.cached (p / bs))) [
          | inl k ↦
              view-cached h ssl reader junk d (p / bs) (p % bs) (w.same.cached (p / bs) ∙ k)
              ∙ e
              ∙ sym (view-cached h ssl reader junk filled (p / bs) (p % bs) k)
          | inr k ↦
              view-stored h ssl reader junk d (p / bs) (p % bs) (w.same.cached (p / bs) ∙ k)
              ∙ ap (λ (m : Option Memory). stored h ssl reader junk m (p / bs) (p % bs)) w.same.bm
              ∙ sym (view-stored h ssl reader junk filled (p / bs) (p % bs) k)
        ]
        ∙ ap (λ (m : Memory). m (p % bs)) (fills.same_view (p / bs))

    -- A byte of a block that is cached is the byte in its buffer.
    content-in :
        (p x : ℕ)
        → filled.cached (p / bs) ≡ true
        → block_of d (p / bs) (p % bs) ≡ x
        → content h ssl reader junk d p ≡ x
    content-in p x e q =
        content-view p
        ∙ view-cached h ssl reader junk d (p / bs) (p % bs) (w.same.cached (p / bs) ∙ e)
        ∙ q

  -- On a backend that has what the cache needs (`IsServed`), with blocks of at least one byte, a write
  -- of at least one byte, in a valid cache and with no wrap of `offset + size`, succeeds. The file then holds the buffer from `offset` on, and its old bytes
  -- before `offset` and behind position `offset + size`; the blocks written are dirty, and the
  -- cache is valid and still has what it needs.
  pub write-content :
      (d : Cache) × (write h ssl reader junk buf offset size c ≡ (ok tt, d))
      × ((i : ℕ) → i < size → content h ssl reader junk d (offset + i) ≡ buf i)
      × ((p : ℕ) → p < offset → content h ssl reader junk d p ≡ content h ssl reader junk c p)
      × ((p : ℕ)
          → offset + size < p
          → content h ssl reader junk d p ≡ content h ssl reader junk c p)
      × ((k : ℕ) → st ≤ k → k ≤ ed → d.dirty k ≡ true)
      × IsValid d
      × IsServed h ssl reader junk d
  write-content =
      let (d, runs, w) = patched_all in
      let split = λ (p : ℕ). div-mul-mod p bs pos in
      (
        d,
        runs,
        (λ i l.
            let p = offset + i in
            content-in d w p (buf i)
              (all_cached (p / bs) (div_mono offset p bs pos (omega arith))
                (div_mono p (offset + size) bs pos (omega arith)))
              (w.inside (p / bs) (p % bs) i (mod-lt_size p bs pos) l
                (omega (arith, split offset, split p)))),
        (λ p l. content-kept d w p (
            w.below (p / bs) (p % bs) (mod-lt_size p bs pos)
              (omega (arith, split offset, split p)))),
        (λ p l. content-kept d w p (
            w.above (p / bs) (p % bs) (mod-lt_size p bs pos)
              (omega (arith, split offset, split p)))),
        w.marked,
        w.same.valid,
        IsServed-done h ssl reader junk c d (w.same.bm ∙ fills.same_bm) served,
      )

  -- Under the conditions of `write-content`, the byte behind the range, at `offset + size`, is kept
  -- where it is in the same block as `offset`. Where it is in another block a write overwrites it
  -- with `buf[size]`, the byte behind the bytes that the caller passed.
  pub write_spill :
      (d : Cache) × (write h ssl reader junk buf offset size c ≡ (ok tt, d))
      × (content h ssl reader junk d (offset + size)
          ≡ (if st == ed then content h ssl reader junk c (offset + size) else buf size))
  write_spill =
      let (d, runs, w) = patched_all in
      let at_end =
        all_cached ed (div_mono offset (offset + size) bs pos (omega arith)) (omega arith) in
      (
        d,
        runs,
        elim (Bool-cases (st == ed)) [
          | inl t ↦ rw t (content-kept d w (offset + size) (rw t at w.spill))
          | inr t ↦ rw t (content-in d w (offset + size) (buf size) at_end (rw t at w.spill))
        ],
      )
