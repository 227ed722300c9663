-- ===== src/Dcfs/Files/ReadAgain.antt =====
-- A file that is closed for the last time, opened again, and read.
use dcfs_client.Base.{
  none, ℕ, ◌+◌, ◌*◌, ◌/◌, ◌%◌, ◌≤◌, ◌<◌, ◌≡◌, sym, ap, ◌∙◌, true, some, [], ◌∷◌, List, Bytes,
  length, get_or, bytes_at, Memory, ok, arith, ltb, ◌==◌, if◌then◌else◌, subst,
}
use dcfs_client.Crypto.{decrypt_symmetric}
use dcfs_client.Crypto.Laws.{IsPadded}
use dcfs_client.Capsule.{datablock}
use dcfs_client.Directory.{Directory, find_entry, DirectoryEntry}
use dcfs_client.Cache.{Cache}
use dcfs_client.Cache.View.{IsValid, IsServed, block_of}
use dcfs_client.Cache.Flush.{flush_cache}
use dcfs_client.Inode.{Inode, ref, load_inode}
use dcfs_client.Inode.RoundTrip.{bytes}
use dcfs_client.Inodes.{blockmap_cover}
use dcfs_client.Mid.{Env, Mid, latest}
use dcfs_client.Mid.Kept.{AllDifferent, IsKept}
use dcfs_client.Mid.Payload.{default_block_size}
use dcfs_client.Backend.{FileMeta, sign_args, read_file_meta}
use dcfs_client.Backend.Meta.{IsReadable}
use dcfs_client.Backend.Serving.{backend_reader, backend_writer}
use dcfs_client.Backend.Stored.{IsStoring}
use dcfs_client.Backend.Content.{reopened}
use dcfs_client.Backend.Reread.{reopened-IsValid, flush_cache-IsServed, byte_at}
use dcfs_client.Dcfs.{done, Dcfs, look_up, name_of, fd_table_max}
use dcfs_client.Dcfs.Entries.{dcfs_open}
use dcfs_client.Dcfs.Files.{dcfs_read, dcfs_flush}
use dcfs_client.Dcfs.Files.Closing.{dcfs_flush-closes, dcfs_open-IsOpen}
use dcfs_client.Dcfs.Files.Transfer.{IsOpen, dcfs_read-IsOpen}

module _ {S : Type 0} (env : Env S) (readable : IsReadable env) (log : S → List Bytes)
    (storing : IsStoring env log) (padded : IsPadded env.ssl) (junk : Memory) (path : Bytes)
    (fh a : ℕ) (ino : Inode) (s : Dcfs S) (open_file : IsOpen env 16 junk fh a ino s)
    (once : ino.ref_count ≡ 1) (c' : Cache) (n : ℕ) (m : Mid S) (sig : Bytes)
    (different : AllDifferent (log m.server)) (v : IsValid ino.cache)
    (first : (i : ℕ) → ino.cache.dirty i ≡ ltb i n)
    (cached : (i : ℕ) → ino.cache.dirty i ≡ true → ino.cache.cached i ≡ true)
    (all : n ≤ ino.cache.count) (small : n ≤ blockmap_cover)
    (bs : ino.host.block_size ≡ default_block_size) (short : length ino.host.hashname ≤ 32)
    (key : length ino.host.aes_key ≡ 16) (none_yet : ino.host.ino_recordname ≡ [])
    (empty : latest ino.host.hashname s.inodes.mid.index ≡ [])
    (signs : sign_args env ino.host.hashname ≡ ok sig)
    (flushes : flush_cache ino.host env.ssl (backend_writer env) ino.cache s.inodes.mid
      ≡ (ok tt, c', m)) where
  -- The file's state once it is open again.
  dcfs_open-flushed :
      (again filename : Bytes)
      → (look_up again s).0 ≡ some (record { filename = filename; hashname = ino.hashname })
      → s.fd_cnt + 1 < fd_table_max
      → 0 < n
      → let (closed, t) = dcfs_flush env 16 junk path fh s in
        let (opened, u) = dcfs_open env 16 again t in
        (closed ≡ done 0)
        × (opened ≡ done (s.fd_cnt + 1))
        × (u.inodes.mid ≡ m)
        × (meta : FileMeta) × (read_file_meta env ino.hashname m ≡ (ok meta, m))
        × (meta.i_size ≡ n * default_block_size)
        × IsServed
            (reopened ino.hashname meta).host
            env.ssl
            (backend_reader env m)
            junk
            (reopened ino.hashname meta).cache
        × IsOpen env 16 junk (s.fd_cnt + 1) t.inodes.next (ref (reopened ino.hashname meta)) u
  unfolding load_inode look_up
  dcfs_open-flushed again filename found room pos =
      let (closed, gone, same, same_root, same_cnt) =
        dcfs_flush-closes env 16 junk path fh a ino s c' m open_file once flushes in
      let t = (dcfs_flush env 16 junk path fh s).1 in
      let (meta, is, length_is, served) =
        flush_cache-IsServed env readable log storing padded ino.host ino.cache c' n s.inodes.mid m
          sig junk different v first cached all small bs short key none_yet empty signs flushes
          pos in
      let entry : DirectoryEntry = record { filename = filename; hashname = ino.hashname } in
      let reads_meta : read_file_meta env ino.hashname t.inodes.mid ≡ (ok meta, t.inodes.mid) =
        subst (λ (x : Mid S). read_file_meta env ino.hashname x ≡ (ok meta, x)) (sym same) is in
      let listed = ap (λ (d : Directory). (find_entry (name_of again) d).0) same_root ∙ found in
      let (opened, o, stays) =
        dcfs_open-IsOpen env 16 junk again entry t meta listed gone reads_meta
          (omega (arith, same_cnt)) in
      (
        closed,
        opened ∙ ap (λ (k : ℕ). done (k + 1)) same_cnt,
        stays ∙ same,
        meta,
        is,
        length_is,
        served,
        subst
            (λ (k : ℕ).
              IsOpen env 16 junk (k + 1) t.inodes.next (ref (reopened ino.hashname meta))
                (dcfs_open env 16 again t).1)
            same_cnt o,
      )

  -- The blocks of a file that was written and is closed for the last time are read as they were when
  -- it is opened again. The file is open and referred to once; in its valid cache of default block size,
  -- the dirty blocks are the first `n` of the file, all of them cached, at most as many as a block map
  -- covers; the file has no version yet, nor its inode a record; `FlushCache` through `WriteRecord`
  -- returns NO_ERR; no two of the records that the server was given up to then came under the same
  -- name; the path `again` is looked up to the file's hash name; and a file descriptor is left. Then
  -- `dcfs_flush` returns 0 and unsets `fi->fh`; `dcfs_open` of `again` succeeds with the next
  -- descriptor, on an inode whose size is that of the `n` whole blocks, whatever size the file had; and
  -- `dcfs_read` through it of at least one byte within those blocks returns the number of bytes asked
  -- for. For each of them the server keeps a record that decrypts to its block, and the byte is the one
  -- that the cache had, if the name of the record does not begin with a 0, and 0 if it does. Relied on:
  -- what `IsReadable`, `IsStoring` and `IsPadded` say of the server, the protocol buffers, the digests
  -- and the cipher; that the client can sign the file's name; a file name of at most 32 bytes, and a
  -- key of 16.
  pub flush-open-read :
      (again filename other : Bytes) (offset size : ℕ) (mem : Memory)
      → (look_up again s).0 ≡ some (record { filename = filename; hashname = ino.hashname })
      → s.fd_cnt + 1 < fd_table_max
      → 0 < size
      → offset + size ≤ n * default_block_size
      → let (closed, t) = dcfs_flush env 16 junk path fh s in
        let (opened, u) = dcfs_open env 16 again t in
        (closed ≡ done 0)
        × (opened ≡ done (s.fd_cnt + 1))
        × (now : Inode) × (u.inodes.heap t.inodes.next ≡ some now)
        × (now.size ≡ n * default_block_size)
        × (end : Memory) × ((dcfs_read env 16 junk other mem size offset (s.fd_cnt + 1) u).0
            ≡ done (end, size))
        × ((i : ℕ)
            → i < size
            → let p = offset + i in
              (name prev buf : Bytes) × IsKept env ino.hashname datablock
                (prev ∷ [])
                buf
                name
                u.inodes.mid.server
              × ((decrypt_symmetric env.ssl ino.aes_key none buf 0).out
                  ≡ bytes_at (block_of ino.cache (p / default_block_size)) 0 ino.block_size)
              × (end i ≡ (
                  if get_or name 0 0 == 0
                  then 0
                  else block_of ino.cache (p / default_block_size) (p % default_block_size))))
  unfolding load_inode ref
  flush-open-read again filename other offset size mem found room some_bytes within =
      let t = (dcfs_flush env 16 junk path fh s).1 in
      let u = (dcfs_open env 16 again t).1 in
      let (closed, opened, mid_is, meta, is, length_is, served, o) =
        dcfs_open-flushed again filename found room (omega arith) in
      let loaded = ref (reopened ino.hashname meta) in
      let (end, reads, got) =
        dcfs_read-IsOpen env 16 junk other (s.fd_cnt + 1) t.inodes.next loaded u o
          (subst
            (λ (x : Mid S). IsServed loaded.host env.ssl (backend_reader env x) junk loaded.cache)
            (sym mid_is) served)
          (reopened-IsValid ino.hashname meta) (omega arith) mem size offset some_bytes
          (omega (arith, length_is)) (omega arith) (omega arith) in
      (
        closed,
        opened,
        loaded,
        o.object,
        length_is,
        end,
        reads,
        λ i l.
            let (name, prev, buf, kept, clear, byte) =
              byte_at env readable log storing padded ino.host ino.cache c' n s.inodes.mid m sig
                junk different v first cached all small bs short key none_yet empty signs flushes
                meta (offset + i) is (omega arith) in
            (
              name,
              prev,
              buf,
              subst (λ (x : Mid S). IsKept env ino.hashname datablock (prev ∷ []) buf name x.server)
                  (sym mid_is) kept,
              clear,
              got i l
                  ∙ ap
                      (λ (x : Mid S). bytes env.ssl (backend_reader env x) junk loaded (offset + i))
                      mid_is
                  ∙ byte,
            ),
      )
