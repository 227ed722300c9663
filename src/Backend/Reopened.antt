-- ===== src/Backend/Reopened.antt =====
-- A file that was flushed for the first time and is opened again: fs/inode.cpp, fs/backend.cpp and
-- fs/backend_sim.cpp together.
use dcfs_client.Base.{
  none, ℕ, ◌+◌, ◌*◌, ◌^◌, ◌/◌, ◌%◌, ◌≤◌, ◌<◌, ◌≡◌, refl, sym, ap, ◌∙◌, true, List, [], ◌∷◌, ◌++◌,
  Bytes, length, get_or, length-bytes_at, get_or-bytes_at, bytes_at, Memory, ok, arith, ltb, ◌==◌,
  if◌then◌else◌, subst, then-step,
}
use dcfs_client.Crypto.{decrypt_symmetric}
use dcfs_client.Crypto.Laws.{IsPadded}
use dcfs_client.Capsule.{datablock}
use dcfs_client.Cache.{Host, Cache, BufDesc, aes_pad_len}
use dcfs_client.Cache.View.{IsValid, block_of, content}
use dcfs_client.Cache.Flush.{flush_cache, flush_cache-ok}
use dcfs_client.Cache.Flush.Descs.{opened}
use dcfs_client.Cache.Flush.Places.{dirty_descs-at}
use dcfs_client.Inodes.{blockmap_cover}
use dcfs_client.Mid.{Env, Mid, latest}
use dcfs_client.Mid.FirstVersion.{IsFirst, modify_latest-IsFirst}
use dcfs_client.Mid.Kept.{AllDifferent, IsKept}
use dcfs_client.Mid.Modify.{modify, modify_latest, check_signature, modify_args}
use dcfs_client.Mid.Payload.{default_block_size}
use dcfs_client.Backend.{FileMeta, sign_args, read_file_meta, write_record}
use dcfs_client.Backend.Meta.{IsReadable, read_file_meta-IsFirst}
use dcfs_client.Backend.Serving.{backend_reader, backend_writer}
use dcfs_client.Backend.Content.{reopened, content-IsFirst}
use dcfs_client.Backend.Stored.{IsStoring}

module _ {S : Type 0} (env : Env S) where
  -- Where a write went through, `Modify` did.
  pub write_record-modifies :
      (dcname name aes_key : Bytes) (descs : List BufDesc) (m t : Mid S)
      → 0 < length descs
      → write_record env dcname descs name aes_key m ≡ (ok tt, t)
      → modify_latest env dcname descs name aes_key m ≡ (ok tt, t)
  unfolding write_record modify
  write_record-modifies dcname name aes_key [] m t l e = absurd (omega arith)
  write_record-modifies dcname name aes_key (d ∷ ds) m t l e =
      let args = modify_args dcname (d ∷ ds) name aes_key in
      let (sig, _, f) =
        then-step {S = Mid S} (sign_args env args, m) (modify env dcname (d ∷ ds) name aes_key) e in
      let (_, _, g) =
        then-step {S = Mid S} (check_signature env args sig, m)
          (λ _. modify_latest env dcname (d ∷ ds) name aes_key) f in
      g

module _ {S : Type 0} (env : Env S) (readable : IsReadable env) (log : S → List Bytes)
    (storing : IsStoring env log) (padded : IsPadded env.ssl) where
  -- A first flush that went through: the blocks of the write, one of them, and the version made.
  flush_cache-IsFirst :
      (h : Host) (c c' : Cache) (n i : ℕ) (m t : Mid S)
      → h.block_size < 2 ^ 31
      → IsValid c
      → ((j : ℕ) → c.dirty j ≡ ltb j n)
      → ((j : ℕ) → c.dirty j ≡ true → c.cached j ≡ true)
      → n ≤ c.count
      → i < n
      → h.ino_recordname ≡ []
      → latest h.hashname m.index ≡ []
      → flush_cache h env.ssl (backend_writer env) c m ≡ (ok tt, c', t)
      → (before after : List BufDesc) × (d : BufDesc) × IsFirst env h.hashname h.aes_key
          (before ++ d ∷ after)
          t
        × (length (before ++ d ∷ after) ≡ n)
        × (length before ≡ i)
        × (length d.buf ≤ h.block_size + aes_pad_len)
        × ((decrypt_symmetric env.ssl h.aes_key none d.buf 0).out
            ≡ bytes_at (block_of c i) 0 h.block_size)
  unfolding opened
  flush_cache-IsFirst h c c' n i m t int v first cached all within none_yet empty e =
      let (descs, sealed, written) = flush_cache-ok h env.ssl (backend_writer env) c c' m t e in
      let (count, before, after, d, is, k, room, opens) =
        dirty_descs-at h env.ssl c n first readable.cipher int padded v cached all descs i sealed
          within in
      let modified =
        write_record-modifies env h.hashname [] h.aes_key descs m t (omega (arith, count)) (
          subst (λ (r : Bytes). write_record env h.hashname descs r h.aes_key m ≡ (ok tt, t))
            none_yet written) in
      let modified' =
        subst (λ (ds : List BufDesc). modify_latest env h.hashname ds [] h.aes_key m ≡ (ok tt, t))
          is modified in
      (
        before,
        after,
        d,
        modify_latest-IsFirst env h.hashname (before ++ d ∷ after) h.aes_key m t empty modified',
        ap length (sym is) ∙ count,
        k,
        room,
        ap (λ (x : ℕ × Bytes). x.1) opens,
      )

  -- A byte of a file that was written, flushed for the first time, and opened again.
  pub flush_cache-content :
      (h : Host) (c c' : Cache) (n p : ℕ) (m t : Mid S) (sig : Bytes) (junk : Memory)
      → AllDifferent (log t.server)
      → IsValid c
      → ((i : ℕ) → c.dirty i ≡ ltb i n)
      → ((i : ℕ) → c.dirty i ≡ true → c.cached i ≡ true)
      → n ≤ c.count
      → n ≤ blockmap_cover
      → p < n * default_block_size
      → h.block_size ≡ default_block_size
      → length h.hashname ≤ 32
      → length h.aes_key ≡ 16
      → h.ino_recordname ≡ []
      → latest h.hashname m.index ≡ []
      → sign_args env h.hashname ≡ ok sig
      → flush_cache h env.ssl (backend_writer env) c m ≡ (ok tt, c', t)
      → (meta : FileMeta) × (read_file_meta env h.hashname t ≡ (ok meta, t))
        × (meta.i_size ≡ n * default_block_size)
        × (name prev buf : Bytes) × IsKept env h.hashname datablock (prev ∷ []) buf name t.server
        × ((decrypt_symmetric env.ssl h.aes_key none buf 0).out
            ≡ bytes_at (block_of c (p / default_block_size)) 0 h.block_size)
        × (content
              (reopened h.hashname meta).host
              env.ssl
              (backend_reader env t)
              junk
              (reopened h.hashname meta).cache
              p
            ≡ (if get_or name 0 0 == 0
                then 0
                else block_of c (p / default_block_size) (p % default_block_size)))
  flush_cache-content h c c' n p m t sig junk different v first cached all small within bs short key
        none_yet empty signs e =
      let i = p / default_block_size in
      let o = p % default_block_size in
      let (before, after, d, f, size, k, room, plain) =
        flush_cache-IsFirst h c c' n i m t (omega (arith, bs)) v first cached all (omega arith)
          none_yet empty e in
      let write = before ++ d ∷ after in
      let meta : FileMeta = record {
        recordname = f.name;
        i_size = length write * default_block_size;
        aes_key = h.aes_key;
        blockmap_hash = f.bm_name;
      } in
      let length_plain = ap length plain ∙ length-bytes_at (block_of c i) 0 h.block_size in
      let byte : get_or (decrypt_symmetric env.ssl h.aes_key none d.buf 0).out o 0
          ≡ block_of c i o =
        ap (λ (b : Bytes). get_or b o 0) plain
        ∙ get_or-bytes_at (block_of c i) 0 h.block_size o (omega (arith, bs))
        ∙ ap (block_of c i) (omega arith) in
      let (name, prev, kept, reads) =
        content-IsFirst env log storing h.hashname meta before after d t f junk o different refl
          short (omega (arith, size)) (omega (arith, k)) (omega (arith, room, bs)) (omega arith)
          (omega (arith, length_plain, bs)) in
      let there : length before * default_block_size + o ≡ p = omega (arith, k) in
      (
        meta,
        read_file_meta-IsFirst env readable h.hashname h.aes_key sig write t f signs short key
            (omega (arith, size)),
        ap (λ (l : ℕ). l * default_block_size) size,
        name,
        prev,
        d.buf,
        kept,
        plain,
        ap
              (content (reopened h.hashname meta).host env.ssl (backend_reader env t) junk
                (reopened h.hashname meta).cache)
              (sym there)
            ∙ reads
            ∙ ap (λ (x : ℕ). if get_or name 0 0 == 0 then 0 else x) byte,
      )
