-- ===== src/Cache/Load.antt =====
-- `fillBmcache` and `fillDcache` as a whole, seen through the content of the file.
use dcfs_client.Base.{
  ℕ, ◌+◌, ◌-◌, ◌*◌, ◌/◌, ◌%◌, ◌≤◌, ◌≡◌, sym, ap, subst, ◌∙◌, true, Memory, Outcome, ok, arith, ltb,
  add64, then-keeps, then-ok, if◌then◌else◌,
}
use dcfs_client.Crypto.{OpenSsl}
use dcfs_client.Cache.{
  Host, Cache, Reader, hashlen, bm_check, fill_bmcache, fill_blocks, fill_dcache,
}
use dcfs_client.Cache.View.{IsValid, IsServing, IsServed, AllLoad, content}
use dcfs_client.Cache.Fill.{
  Fills, backed-total, Fills-refl, fill_blocks-Fills, fill_blocks-total, fill_blocks-cached,
}

module _ (h : Host) (ssl : OpenSsl) (reader : Reader) (junk : Memory) where
  -- `fillBmcache` changes the block map only.
  pub fill_bmcache-same :
      (c : Cache)
      → ((fill_bmcache h ssl reader junk c).1.count ≡ c.count)
        × ((fill_bmcache h ssl reader junk c).1.cached ≡ c.cached)
        × ((fill_bmcache h ssl reader junk c).1.dirty ≡ c.dirty)
        × ((fill_bmcache h ssl reader junk c).1.blocks ≡ c.blocks)
  unfolding fill_bmcache
  fill_bmcache-same c = ground arith

  pub fill_bmcache-total :
      (c : Cache) → IsServing reader → (fill_bmcache h ssl reader junk c).0 ≡ ok tt
  unfolding fill_bmcache
  fill_bmcache-total c s =
      let (b, e, l) = s h.hashname h.bm_recordname (hashlen * h.bm_cover) in ground arith

  -- A backend that serves every record has what any cache needs.
  pub IsServing-IsServed : IsServing reader → (c : Cache) → IsServed h ssl reader junk c
  IsServing-IsServed s c = (
    fill_bmcache-total c s,
    λ i.
        backed-total h ssl reader junk
          (bm_check h ssl reader junk (fill_bmcache h ssl reader junk c).1.bm i) s,
  )

  -- A cache that has the block map that `fillBmcache` made of `c` is not changed by it.
  pub fill_bmcache-done :
      (c d : Cache)
      → d.bm ≡ (fill_bmcache h ssl reader junk c).1.bm
      → (fill_bmcache h ssl reader junk d).1 ≡ d
  unfolding fill_bmcache
  fill_bmcache-done c d e = ground arith

  fill_bmcache-again :
      (c d : Cache)
      → d.bm ≡ (fill_bmcache h ssl reader junk c).1.bm
      → (fill_bmcache h ssl reader junk c).0 ≡ ok tt
      → (fill_bmcache h ssl reader junk d).0 ≡ ok tt
  unfolding fill_bmcache
  fill_bmcache-again c d e k = ground arith

  pub IsServed-done :
      (c d : Cache)
      → d.bm ≡ (fill_bmcache h ssl reader junk c).1.bm
      → IsServed h ssl reader junk c
      → IsServed h ssl reader junk d
  IsServed-done c d e (k, all) = (
    fill_bmcache-again c d e k,
    subst (AllLoad h ssl reader junk) (sym (ap (λ (x : Cache). x.bm) (fill_bmcache-done c d e) ∙ e))
        all,
  )

  pub fill_bmcache-IsValid : (c : Cache) → IsValid c → IsValid (fill_bmcache h ssl reader junk c).1
  unfolding fill_bmcache
  fill_bmcache-IsValid c v i = ground (arith, v i)

module _ (h : Host) (ssl : OpenSsl) (reader : Reader) (junk : Memory) (offset size : ℕ)
    (c : Cache) where
  abbrev pub loaded : Cache
  loaded = (fill_dcache h ssl reader junk offset size c).1

  abbrev pub from : ℕ
  from = if ltb c.count (offset / h.block_size) then c.count else offset / h.block_size

  abbrev rounds : ℕ
  rounds = add64 offset size / h.block_size + 1 - from

  from-le-count : from ≤ (fill_bmcache h ssl reader junk c).1.count
  from-le-count = ground (arith, fill_bmcache-same h ssl reader junk c)

  pub fill_dcache-Fills :
      IsValid c → Fills h ssl reader junk (fill_bmcache h ssl reader junk c).1 loaded
  unfolding fill_dcache
  fill_dcache-Fills v =
      let b = (fill_bmcache h ssl reader junk c).1 in
      let w = fill_bmcache-IsValid h ssl reader junk c v in
      then-keeps (Fills h ssl reader junk b) (fill_bmcache h ssl reader junk c).0
        (λ _. fill_blocks h ssl reader junk rounds from) b (Fills-refl h ssl reader junk b w)
        λ _ _. fill_blocks-Fills h ssl reader junk rounds from b from-le-count w

  pub fill_dcache-total :
      IsServed h ssl reader junk c → (fill_dcache h ssl reader junk offset size c).0 ≡ ok tt
  unfolding fill_dcache
  fill_dcache-total (k, all) = rw k (fill_blocks-total h ssl reader junk rounds from _ all)

  -- Where it succeeds, the blocks that the range touches are cached.
  pub fill_dcache-cached :
      IsValid c
      → (fill_dcache h ssl reader junk offset size c).0 ≡ ok tt
      → (i : ℕ) → offset / h.block_size ≤ i
      → i ≤ add64 offset size / h.block_size
      → loaded.cached i ≡ true
  unfolding fill_dcache
  fill_dcache-cached v e i a b =
      let w = fill_bmcache-IsValid h ssl reader junk c v in
      let (_, first, same) =
        then-ok (fill_bmcache h ssl reader junk c).0
          (λ _. fill_blocks h ssl reader junk rounds from) (fill_bmcache h ssl reader junk c).1 e in
      subst (λ (x : Outcome (Unit {0}) × Cache). x.1.cached i ≡ true) (sym same)
        (fill_blocks-cached h ssl reader junk rounds from _ from-le-count w
          (ap (λ (x : Outcome (Unit {0}) × Cache). x.0) (sym same) ∙ e) i (ground arith)
          (ground arith))

  -- Filling changes no byte of the file, whether it succeeds or not.
  pub fill_dcache-content :
      IsValid c → (p : ℕ) → content h ssl reader junk loaded p ≡ content h ssl reader junk c p
  fill_dcache-content v p =
      let f = fill_dcache-Fills v in
      rw (fill_bmcache-done h ssl reader junk c loaded f.same_bm)
        (ap (λ (m : Memory). m (p % h.block_size)) (f.same_view (p / h.block_size)))
