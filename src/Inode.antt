-- ===== src/Inode.antt =====
-- fs/inode.hpp and fs/inode.cpp, class Inode: one version of a file, with its cache.
pub mod RoundTrip
pub mod Name
use dcfs_client.Base.{
  ℕ, ◌+◌, ◌^◌, ◌%◌, ◌-◌, ◌*◌, ◌≤◌, Bool, true, false, Option, none, some, [], Bytes, Memory, add64,
  ltb, leb, ◌==◌, Outcome, ok, err, fault, Exec, if◌then◌else◌,
}
use dcfs_client.Crypto.{OpenSsl}
use dcfs_client.Cache
use dcfs_client.Cache.{Host, Cache, Reader, new_cache}
use dcfs_client.Cache.Flush.{Writer, flush_cache}

-- `i_size_` is `host.size`; the other fields that the cache reads through `host_` do not change.
pub record Inode : Type 0 where
  pub host : Host
  pub open host use *
  pub cache : Cache
  pub ref_count : ℕ

-- The constructor that loads an InodeRecord. The block size is given in KB.
unfoldable pub load_inode : Bytes → Bytes → Bytes → ℕ → ℕ → ℕ → Bytes → Inode
unfolding new_cache
load_inode hashname ino_recordname bm_recordname block_size_in_kb bm_cover i_size aes_key =
    let host : Host = record {
      hashname = hashname;
      ino_recordname = ino_recordname;
      size = i_size;
      block_size = (block_size_in_kb * 1024) % 2 ^ 64;
      bm_cover = bm_cover;
      bm_recordname = bm_recordname;
      aes_key = aes_key;
    } in
    record { host = host; cache = new_cache host; ref_count = 0 }

-- The constructor of a fresh inode: no record yet, and no bytes.
unfoldable pub fresh_inode : Bytes → ℕ → ℕ → Bytes → Inode
unfolding load_inode
fresh_inode hashname block_size_in_kb bm_cover aes_key =
    load_inode hashname [] [] block_size_in_kb bm_cover 0 aes_key

unfoldable pub ref : Inode → Inode
ref ino = record ino { ref_count = ino.ref_count + 1 }

module _ (ssl : OpenSsl) (reader : Reader) (junk : Memory) where
  keep_read : Inode → ℕ → Outcome Memory × Cache → Outcome (Memory × Option ℕ) × Inode
  keep_read ino size (ok buf, c) = (ok (buf, some size), record ino { cache = c })
  keep_read ino size (err e, c) = (err e, record ino { cache = c })
  keep_read ino size (fault, c) = (fault, record ino { cache = c })

  -- `Read`: the caller's memory and `*read_size`, which stays unwritten when `offset` is at or past
  -- the end of the file.
  unfoldable pub read : Memory → ℕ → ℕ → Exec Inode (Memory × Option ℕ)
  unfolding keep_read
  read buf offset size ino =
      let size' = if ltb ino.size (add64 offset size) then ino.size - offset else size in
      if leb ino.size offset
      then (ok (buf, none), ino)
      else keep_read ino size' (Cache.read ino.host ssl reader junk buf offset size' ino.cache)

  keep_write : Inode → ℕ → ℕ → Outcome (Unit {0}) × Cache → Outcome ℕ × Inode
  keep_write ino offset size (ok u, c) =
      let end = add64 offset size in
      let ino' : Inode = record ino { cache = c } in
      if ltb ino.size end
      then (ok size, record ino' { host = record ino.host { size = end } })
      else (ok size, ino')
  keep_write ino offset size (err e, c) = (err e, record ino { cache = c })
  keep_write ino offset size (fault, c) = (fault, record ino { cache = c })

  -- `Write`: `*write_size` on success. An `offset` past the end is moved to the end.
  unfoldable pub write : Memory → ℕ → ℕ → Exec Inode ℕ
  unfolding keep_write
  write buf offset size ino =
      let offset' = if leb ino.size offset then ino.size else offset in
      keep_write ino offset' size (Cache.write ino.host ssl reader junk buf offset' size ino.cache)

module _ (ssl : OpenSsl) {B : Type 0} (writer : Writer B) where
  after_flush : Inode → Outcome (Unit {0}) × Cache × B → Outcome ℕ × Inode × B
  after_flush ino (ok u, c, b) = (ok 0, record ino { cache = c; ref_count = 0 }, b)
  after_flush ino (err e, c, b) = (ok 0, record ino { cache = c; ref_count = 0 }, b)
  after_flush ino (fault, c, b) = (fault, record ino { cache = c; ref_count = 0 }, b)

  -- `Unref`: the count that is left. The last reference flushes; the error of the flush is dropped.
  unfoldable pub unref : Inode → B → Outcome ℕ × Inode × B
  unfolding after_flush
  unref ino b =
      if ino.ref_count == 0
      then (fault, ino, b)
      else if ino.ref_count == 1
      then after_flush ino (flush_cache ino.host ssl writer ino.cache b)
      else (ok (ino.ref_count - 1), record ino { ref_count = ino.ref_count - 1 }, b)
