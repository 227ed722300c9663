-- ===== src/Cache/WriteBack.antt =====
-- `RecordCache::Write` as a whole: the file's content after it.
use dcfs_client.Base.{
  ℕ, ◌+◌, ◌-◌, ◌*◌, ◌≤◌, ◌<◌, ◌≡◌, refl, sym, ap, subst, ◌∙◌, true, false, Memory, memcpy, ok,
  arith, ℕ_discrete, ◌==◌, ==_iff, block-le,
}
use dcfs_client.Crypto.{OpenSsl}
use dcfs_client.Cache.{Host, Cache, Reader, copy_in_blocks, patch_range}
use dcfs_client.Cache.View.{IsValid, block_of}
use dcfs_client.Cache.CopyIn.{
  put-SameSlots, patch-cached, patched, dirtied, copy_in_blocks_lem, PutBlocks-none,
}
use dcfs_client.Cache.WriteThrough.{
  WritesIn, one_block-WritesIn, started, finished, many_blocks-WritesIn,
}

module _ (h : Host) (ssl : OpenSsl) (reader : Reader) (junk : Memory) where
  abbrev bs : ℕ
  bs = h.block_size

  module _ (c : Cache) (v : IsValid c) (st so size : ℕ) (buf : Memory) (in_block : so < bs) (eo : ℕ)
      (l : eo < bs) (here : c.cached st ≡ true) where
    abbrev Result : ℕ → Type 0
    Result ed =
        (d : Cache) × (patch_range h ssl reader junk st so ed eo size buf c ≡ (ok tt, d))
        × WritesIn bs c st so ed eo size buf d

    within_block : st * bs + so + size ≡ st * bs + eo → Result st
    unfolding patch_range
    within_block e =
        let d = dirtied (patched c st (memcpy (block_of c st) so buf 0 size)) st in
        (
          d,
          rw ((==_iff st st).1 refl, patch-cached c st so buf 0 size v here) refl,
          one_block-WritesIn bs c v st so size buf in_block here eo l e,
        )

    abbrev head : Memory
    head = memcpy (block_of c st) so buf 0 (bs - so)

    abbrev begun : Cache
    begun = started h ssl reader junk c v st so size buf in_block here

    begun-IsValid : IsValid begun
    begun-IsValid = (put-SameSlots c st head v here).valid

    next_block :
        st * bs + so + size ≡ (st + 1 + 0) * bs + eo
        → c.cached (st + 1 + 0) ≡ true
        → Result (st + 1 + 0)
    unfolding patch_range
    next_block e there =
        let t : (st == st + 1 + 0) ≡ false = ground arith in
        let u : (st + 1 == st + 1 + 0) ≡ true = ground arith in
        let none = PutBlocks-none h ssl reader junk buf (st + 1) (bs - so) begun begun-IsValid in
        (
          finished h ssl reader junk c v st so size buf in_block here 0 eo (bs - so) begun none
              there l (omega arith) e,
          rw
              (
                t,
                u,
                patch-cached c st so buf 0 (bs - so) v here,
                patch-cached (patched c st head) (st + 1 + 0) 0 buf (bs - so) (eo + 1) begun-IsValid
                    there,
              )
              refl,
          many_blocks-WritesIn h ssl reader junk c v st so size buf in_block here 0 eo (bs - so)
              begun none there l (omega arith) e,
        )

    far_block :
        (n : ℕ)
        → 0 < n
        → st * bs + so + size ≡ (st + 1 + n) * bs + eo
        → ((i : ℕ) → st ≤ i → i ≤ st + 1 + n → c.cached i ≡ true)
        → Result (st + 1 + n)
    unfolding patch_range
    far_block n some_blocks e r =
        let t : (st == st + 1 + n) ≡ false = ground arith in
        let u : (st + 1 == st + 1 + n) ≡ false = ground arith in
        let w : st + 1 + n - (st + 1) ≡ n = omega arith in
        let (mid, runs, put) =
          copy_in_blocks_lem h ssl reader junk buf n (st + 1) (bs - so) begun begun-IsValid
            (λ i a b. r i (omega arith) (omega arith)) in
        let there = put.same.cached (st + 1 + n) ∙ r (st + 1 + n) (omega arith) (omega arith) in
        let spot = bs - so + (st + 1 + n - (st + 1)) * bs in
        let at_spot : spot ≡ bs - so + n * bs = ap (λ (k : ℕ). bs - so + k * bs) w in
        let runs' =
          ap (λ (k : ℕ). copy_in_blocks h ssl reader junk k (st + 1) (bs - so) buf begun) w in
        (
          finished h ssl reader junk c v st so size buf in_block here n eo spot mid put there l
              at_spot e,
          rw
              (
                t,
                u,
                patch-cached c st so buf 0 (bs - so) v here,
                runs' ∙ runs,
                patch-cached mid (st + 1 + n) 0 buf spot (eo + 1) put.same.valid there,
              )
              refl,
          many_blocks-WritesIn h ssl reader junk c v st so size buf in_block here n eo spot mid put
              there l at_spot e,
        )

    -- The copies go through, whichever of the three shapes the range has.
    pub patch_range_lem :
        (ed : ℕ)
        → st * bs + so + size ≡ ed * bs + eo
        → ((i : ℕ) → st ≤ i → i ≤ ed → c.cached i ≡ true)
        → Result ed
    patch_range_lem ed e r =
        let le = block-le st ed bs eo (omega arith) l in
        let move = λ (k : ℕ) (z : k ≡ ed). e ∙ ap (λ (k : ℕ). k * bs + eo) (sym z) in
        elim (ℕ_discrete st ed) [
          | yes z ↦ subst Result z (within_block (move st z))
          | no d ↦ elim (ℕ_discrete (st + 1) ed) [
            | yes z ↦
                let z' : st + 1 + 0 ≡ ed = omega arith in
                subst Result z'
                  (next_block (move (st + 1 + 0) z') (r (st + 1 + 0) (omega arith) (omega arith)))
            | no d' ↦
                let z' : st + 1 + (ed - (st + 1)) ≡ ed = omega arith in
                subst Result z' (
                  far_block (ed - (st + 1)) (omega arith) (move _ z')
                    (λ i a b. r i a (omega arith)))
          ]
        ]
