-- ===== src/Backend/Reread.antt =====
-- What `Inode::Read` gives of a file that was flushed for the first time and opened again.
use dcfs_client.Base.{
  none, ℕ, ◌+◌, ◌*◌, ◌/◌, ◌%◌, ◌≤◌, ◌<◌, ◌≡◌, refl, sym, ap, ◌∙◌, true, some, [], ◌∷◌, Bytes,
  length, get_or, bytes_at, Memory, List, Outcome, ok, ok-injective, arith, ltb, ◌==◌,
  if◌then◌else◌, subst,
}
use dcfs_client.Crypto.{decrypt_symmetric}
use dcfs_client.Crypto.Laws.{IsPadded}
use dcfs_client.Capsule.{datablock}
use dcfs_client.Cache.{Host, Cache, aes_pad_len, new_cache}
use dcfs_client.Cache.View.{IsValid, IsServed, block_of}
use dcfs_client.Cache.Flush.{flush_cache, flush_cache-ok}
use dcfs_client.Cache.Flush.Places.{AllShort, dirty_descs-at, dirty_descs-short}
use dcfs_client.Inode
use dcfs_client.Inode.{Inode, load_inode}
use dcfs_client.Inode.RoundTrip.{bytes, read_lem}
use dcfs_client.Inodes.{blockmap_cover}
use dcfs_client.Mid.{Env, Mid, latest}
use dcfs_client.Mid.FirstVersion.{modify_latest-IsFirst}
use dcfs_client.Mid.Kept.{AllDifferent, IsKept}
use dcfs_client.Mid.Payload.{default_block_size}
use dcfs_client.Backend.{FileMeta, sign_args, read_file_meta, write_record}
use dcfs_client.Backend.Meta.{IsReadable, read_file_meta-IsFirst}
use dcfs_client.Backend.Serving.{backend_reader, backend_writer}
use dcfs_client.Backend.Stored.{IsStoring}
use dcfs_client.Backend.Content.{reopened, IsFirst-IsServed}
use dcfs_client.Backend.Reopened.{write_record-modifies, flush_cache-content}

pub reopened-IsValid : (dcname : Bytes) (meta : FileMeta) → IsValid (reopened dcname meta).cache
unfolding load_inode new_cache
reopened-IsValid dcname meta i e = cc

module _ {S : Type 0} (env : Env S) (readable : IsReadable env) (log : S → List Bytes)
    (storing : IsStoring env log) (padded : IsPadded env.ssl) (h : Host) (c c' : Cache) (n : ℕ)
    (m t : Mid S) (sig : Bytes) (junk : Memory) (different : AllDifferent (log t.server))
    (v : IsValid c) (first : (i : ℕ) → c.dirty i ≡ ltb i n)
    (cached : (i : ℕ) → c.dirty i ≡ true → c.cached i ≡ true) (all : n ≤ c.count)
    (small : n ≤ blockmap_cover) (bs : h.block_size ≡ default_block_size)
    (short : length h.hashname ≤ 32) (key : length h.aes_key ≡ 16)
    (none_yet : h.ino_recordname ≡ []) (empty : latest h.hashname m.index ≡ [])
    (signs : sign_args env h.hashname ≡ ok sig)
    (flushes : flush_cache h env.ssl (backend_writer env) c m ≡ (ok tt, c', t)) where
  -- The server has what the inode opened again needs.
  pub flush_cache-IsServed :
      0 < n
      → (meta : FileMeta) × (read_file_meta env h.hashname t ≡ (ok meta, t))
        × (meta.i_size ≡ n * default_block_size)
        × IsServed
            (reopened h.hashname meta).host
            env.ssl
            (backend_reader env t)
            junk
            (reopened h.hashname meta).cache
  flush_cache-IsServed pos =
      let (descs, sealed, written) =
        flush_cache-ok h env.ssl (backend_writer env) c c' m t flushes in
      let (count, _, _, _, _, _, _, _) =
        dirty_descs-at h env.ssl c n first readable.cipher (omega (arith, bs)) padded v cached all
          descs 0 sealed pos in
      let modified =
        write_record-modifies env h.hashname [] h.aes_key descs m t (omega (arith, count)) (
          subst (λ (r : Bytes). write_record env h.hashname descs r h.aes_key m ≡ (ok tt, t))
            none_yet written) in
      let f = modify_latest-IsFirst env h.hashname descs h.aes_key m t empty modified in
      let meta : FileMeta = record {
        recordname = f.name;
        i_size = length descs * default_block_size;
        aes_key = h.aes_key;
        blockmap_hash = f.bm_name;
      } in
      (
        meta,
        read_file_meta-IsFirst env readable h.hashname h.aes_key sig descs t f signs short key
            (omega (arith, count)),
        ap (λ (l : ℕ). l * default_block_size) count,
        IsFirst-IsServed env log storing h.hashname meta descs t f junk different refl short
            (omega (arith, count))
            (subst (λ (b : ℕ). AllShort (b + aes_pad_len) descs) bs
              (dirty_descs-short h env.ssl padded c c.count 0 descs sealed)),
      )

  -- A byte of the file opened again.
  pub byte_at :
      (meta : FileMeta) (p : ℕ)
      → read_file_meta env h.hashname t ≡ (ok meta, t)
      → p < n * default_block_size
      → (name prev buf : Bytes) × IsKept env h.hashname datablock (prev ∷ []) buf name t.server
        × ((decrypt_symmetric env.ssl h.aes_key none buf 0).out
            ≡ bytes_at (block_of c (p / default_block_size)) 0 h.block_size)
        × (bytes env.ssl (backend_reader env t) junk (reopened h.hashname meta) p ≡ (
            if get_or name 0 0 == 0
            then 0
            else block_of c (p / default_block_size) (p % default_block_size)))
  byte_at meta p is within =
      let (found, e, _, name, prev, buf, kept, opens, reads) =
        flush_cache-content env readable log storing padded h c c' n p m t sig junk different v
          first cached all small within bs short key none_yet empty signs flushes in
      let same : found ≡ meta =
        ok-injective (ap (λ (z : Outcome FileMeta × Mid S). z.0) (sym e ∙ is)) in
      (
        name,
        prev,
        buf,
        kept,
        opens,
        ap (λ (x : FileMeta). bytes env.ssl (backend_reader env t) junk (reopened h.hashname x) p)
              (sym same)
            ∙ reads,
      )

  -- The blocks of a file that was flushed for the first time are read as they were when it is opened
  -- again. In a valid cache of default block size, the dirty blocks are the first `n` of the file, all
  -- of them cached, at most as many as a block map covers; the file has no version yet, nor its inode a
  -- record; `FlushCache` through `WriteRecord` returned NO_ERR; and no two of the records that the
  -- server was given up to then came under the same name. Then `ReadFileMeta` succeeds, with the `n`
  -- whole blocks as the size of the file, whatever size it had; and `Inode::Read` of at least one byte
  -- within those blocks, on the inode loaded with what it returned, succeeds with the number of bytes
  -- asked for. For each of them the server keeps a record that decrypts to its block, and the byte is
  -- the one that the flushed cache had, if the name of the record does not begin with a 0, and 0 if it
  -- does. Relied on: what `IsReadable`, `IsStoring` and `IsPadded` say of the server, the protocol
  -- buffers, the digests and the cipher; that the client can sign the file's name; a file name of at
  -- most 32 bytes, and a key of 16.
  pub flush_cache-read :
      (offset size : ℕ) (mem : Memory)
      → 0 < size
      → offset + size ≤ n * default_block_size
      → (meta : FileMeta) × (read_file_meta env h.hashname t ≡ (ok meta, t))
        × (meta.i_size ≡ n * default_block_size)
        × (end : Memory) × (later : Inode) × (Inode.read env.ssl
              (backend_reader env t)
              junk
              mem
              offset
              size
              (reopened h.hashname meta)
            ≡ (ok (end, some size), later))
        × ((i : ℕ)
            → i < size
            → let p = offset + i in
              (name prev buf : Bytes) × IsKept env h.hashname datablock
                (prev ∷ [])
                buf
                name
                t.server
              × ((decrypt_symmetric env.ssl h.aes_key none buf 0).out
                  ≡ bytes_at (block_of c (p / default_block_size)) 0 h.block_size)
              × (end i ≡ (
                  if get_or name 0 0 == 0
                  then 0
                  else block_of c (p / default_block_size) (p % default_block_size))))
  unfolding load_inode
  flush_cache-read offset size mem some_bytes within =
      let (meta, is, length_is, served) = flush_cache-IsServed (omega arith) in
      let ino = reopened h.hashname meta in
      let (end, later, runs, got) =
        read_lem env.ssl (backend_reader env t) junk ino served (reopened-IsValid h.hashname meta)
          (omega arith) mem offset size some_bytes (omega (arith, length_is)) (omega arith) in
      (
        meta,
        is,
        length_is,
        end,
        later,
        runs,
        λ i l.
            let (name, prev, buf, kept, opens, byte) = byte_at meta (offset + i) is (omega arith) in
            (name, prev, buf, kept, opens, got i l ∙ byte),
      )
