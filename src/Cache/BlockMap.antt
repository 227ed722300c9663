-- ===== src/Cache/BlockMap.antt =====
-- The block map in memory: which blocks `bmCheck` finds, and what a failed load leaves behind.
use dcfs_client.Base.{
  ℕ, ◌*◌, ◌≡◌, ap, ◌∙◌, Option, none, some, Memory, bytes_at, clear, strcmp_eq, ok, err, Err, arith,
  ltb, ◌==◌, not, ◌&&◌, if◌then◌else◌,
}
use dcfs_client.Crypto.{OpenSsl}
use dcfs_client.Cache.{Host, Cache, Reader, hashlen, bm_check, fill_bmcache}

module _ (h : Host) (ssl : OpenSsl) (reader : Reader) (junk : Memory) where
  -- `strcmp` against the zero string looks at one byte: a block is found exactly when it is within
  -- the block map and the first byte of its record's hash is not 0, whatever the other 31 are.
  pub bm_check_first_byte :
      (m : Memory) (idx : ℕ)
      → bm_check h ssl reader junk (some m) idx ≡ (
          if ltb idx h.bm_cover && not (m (idx * hashlen) == 0)
          then some (bytes_at m (idx * hashlen) hashlen)
          else none)
  unfolding bm_check strcmp_eq bytes_at
  bm_check_first_byte m idx = ground arith

  zeroed_finds_nothing :
      (idx : ℕ) → bm_check h ssl reader junk (some (clear junk (hashlen * h.bm_cover))) idx ≡ none
  unfolding clear
  zeroed_finds_nothing idx =
      bm_check_first_byte (clear junk (hashlen * h.bm_cover)) idx ∙ ground arith

  failed_bm :
      (c : Cache) (e : Err)
      → (fill_bmcache h ssl reader junk c).0 ≡ err e
      → (fill_bmcache h ssl reader junk c).1.bm ≡ some (clear junk (hashlen * h.bm_cover))
  unfolding fill_bmcache
  failed_bm c e p = ground arith

  -- When the record of the block map cannot be read, the call fails the first time only: the
  -- zeroed block map stays, a second call succeeds, and no block of the file is found any more.
  pub failed_block_map_sticks :
      (c : Cache) (e : Err)
      → (fill_bmcache h ssl reader junk c).0 ≡ err e
      → let d = (fill_bmcache h ssl reader junk c).1 in
        (fill_bmcache h ssl reader junk d ≡ (ok tt, d))
        × ((idx : ℕ) → bm_check h ssl reader junk d.bm idx ≡ none)
  unfolding fill_bmcache
  failed_block_map_sticks c e p =
      let q = failed_bm c e p in
      (
        ground (arith, q),
        λ idx.
            ap (λ (m : Option Memory). bm_check h ssl reader junk m idx) q
            ∙ zeroed_finds_nothing idx,
      )
