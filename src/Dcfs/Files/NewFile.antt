-- ===== src/Dcfs/Files/NewFile.antt =====
-- A file that was just created holds what is then written to it.
use dcfs_client.Base.{ℕ, ◌*◌, ◌^◌, ◌<◌, ◌≡◌, refl, ap, ◌∙◌, Bytes, Memory, arith}
use dcfs_client.Crypto.{OpenSsl}
use dcfs_client.Cache.{Reader, new_cache, fill_bmcache, bm_check, backed}
use dcfs_client.Cache.View
use dcfs_client.Cache.View.{IsServed}
use dcfs_client.Inode.{ref, fresh_inode, load_inode}
use dcfs_client.Mid.{Env}
use dcfs_client.Inodes.{lookup, blockmap_cover}
use dcfs_client.Backend.Serving.{backend_reader}
use dcfs_client.Dcfs.{done, Dcfs}
use dcfs_client.Dcfs.Entries.{dcfs_create}
use dcfs_client.Dcfs.Entries.Creation.{IsCreated, dcfs_create-IsCreated}
use dcfs_client.Dcfs.Files.{dcfs_read, dcfs_write}
use dcfs_client.Dcfs.Files.Transfer.{IsOpen, dcfs_read-write}

fresh_inode-IsValid :
    (name : Bytes) (block_size_in_kb cover : ℕ) (key : Bytes)
    → View.IsValid (ref (fresh_inode name block_size_in_kb cover key)).cache
unfolding fresh_inode ref load_inode new_cache
fresh_inode-IsValid name block_size_in_kb cover key i e = cc

-- A file without a block map needs nothing of the backend.
fresh_inode-IsServed :
    (name : Bytes) (block_size_in_kb cover : ℕ) (key : Bytes) (ssl : OpenSsl) (reader : Reader)
    (junk : Memory)
    → let ino = ref (fresh_inode name block_size_in_kb cover key) in
      IsServed ino.host ssl reader junk ino.cache
unfolding fresh_inode ref load_inode new_cache fill_bmcache bm_check backed
fresh_inode-IsServed name block_size_in_kb cover key ssl reader junk = (refl, λ i. (_, refl))

module _ {S : Type 0} (env : Env S) (block_size_in_kb : ℕ) (junk : Memory) where
  IsCreated-IsOpen :
      (path : Bytes) (fd : ℕ) (t : Dcfs S) (c : IsCreated env block_size_in_kb path fd t)
      → IsOpen env block_size_in_kb junk fd c.address
          (ref (fresh_inode c.name block_size_in_kb blockmap_cover c.key))
          t
  IsCreated-IsOpen path fd t c = record {
    some_fh = c.some_fd;
    in_table = c.in_table;
    entered = ap (λ (k : Bytes). lookup k t.inodes.table) c.fd_entry ∙ c.entered;
    object = c.object;
  }

  -- When `dcfs_create` succeeds, then writing bytes at the start of the new file through the file
  -- descriptor it handed out returns their number, and reading as many bytes back through it returns
  -- that number and the same bytes. Nothing is asked of the backend. The block size
  -- in KB is not 0, and in bytes it is below 2^64; there is at least one byte and fewer than 2^31, so
  -- that the `int` which is returned holds their number.
  pub create-write-read :
      (path other : Bytes) (s t : Dcfs S) (fd : ℕ)
      → dcfs_create env block_size_in_kb path s ≡ (done fd, t)
      → 0 < block_size_in_kb
      → block_size_in_kb * 1024 < 2 ^ 64
      → (buf mem : Memory) (size : ℕ) → 0 < size
      → size < 2 ^ 31
      → let (r, u) = dcfs_write env block_size_in_kb junk other buf size 0 fd t in
        (r ≡ done size)
        × (end : Memory) × ((dcfs_read env block_size_in_kb junk other mem size 0 fd u).0
            ≡ done (end, size))
        × ((i : ℕ) → i < size → end i ≡ buf i)
  unfolding fresh_inode ref load_inode
  create-write-read path other s t fd e pos kb buf mem size some_bytes fits =
      let c = dcfs_create-IsCreated env block_size_in_kb path s t fd e in
      dcfs_read-write env block_size_in_kb junk other fd c.address _ t
        (IsCreated-IsOpen path fd t c)
        (fresh_inode-IsServed c.name block_size_in_kb blockmap_cover c.key env.ssl
          (backend_reader env t.inodes.mid) junk)
        (fresh_inode-IsValid c.name block_size_in_kb blockmap_cover c.key) (omega (arith, pos, kb))
        buf mem size 0 some_bytes (omega arith) (omega (arith, fits)) fits
