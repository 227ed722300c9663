-- ===== src/Backend/Later.antt =====
-- What `ReadFileMeta` reads of the second version of a file: fs/backend_sim.cpp, `Modify`, and
-- fs/backend.cpp.
use dcfs_client.Base.{
  none, ◌*◌, ◌≤◌, ◌<◌, ◌^◌, ◌≡◌, refl, sym, ap, ◌∙◌, false, List, [], ◌∷◌, Bytes, length, of_bytes,
  bytes_at, length-bytes_at, ok, arith, subst,
}
use dcfs_client.Crypto.{encrypt_symmetric}
use dcfs_client.Crypto.Laws.{IsDigest}
use dcfs_client.Capsule.{Pdu}
use dcfs_client.Cache.{BufDesc}
use dcfs_client.Mid.{Env, Mid, latest, touch, or_empty}
use dcfs_client.Mid.Index.{latest-touch}
use dcfs_client.Mid.FirstVersion.{IsVersion, IsFirst, modify_latest-IsFirst, push_version-IsVersion}
use dcfs_client.Mid.Modify.{
  modify_latest, new_isize, is_empty, if_empty, max_inode_record_size, InodeRecord, BlockMapRecord,
  current_records,
}
use dcfs_client.Mid.Payload.{default_block_size}
use dcfs_client.Mid.Payload.RoundTrip.{half_key, bytes_at-exact}
use dcfs_client.Mid.Safety.{modify_latest-current}
use dcfs_client.Mid.Versions.{key-current_records, isize-current_records}
use dcfs_client.Backend.{FileMeta, sign_args, read_file_meta}
use dcfs_client.Backend.Meta.{
  IsReadable, sealed_key-decrypt, read-IsVersion, read_file_meta-IsVersion,
}

non_empty : (xs : Bytes) → length xs ≡ 32 → is_empty xs ≡ false
non_empty [] e = absurd (omega arith)
non_empty (x ∷ xs) e = refl

if_empty-bounded : (a b : Bytes) → length a ≡ 32 → length (if_empty a b) ≤ 32
if_empty-bounded [] b e = absurd (omega arith)
if_empty-bounded (x ∷ a) b e = omega arith

-- The first half of a file's key, encrypted for the middleware.
abbrev pub half_of_sealed : {S : Type 0} → Env S → Bytes → Bytes
half_of_sealed env aes_key =
    bytes_at (of_bytes (encrypt_symmetric env.ssl env.middleware_key none aes_key 0).out) 0 16

module _ {S : Type 0} (env : Env S) (readable : IsReadable env) (digest : IsDigest env.ssl) where
  -- The key that the second version starts from.
  loaded_key :
      (dcname aes_key : Bytes) (descs : List BufDesc) (t : Mid S) (other : Bytes)
      (ino : InodeRecord) (bm : BlockMapRecord) (s : Mid S)
      → (f : IsFirst env dcname aes_key descs t) → s.server ≡ t.server
      → length dcname ≤ 32
      → length aes_key ≡ 16
      → length descs * default_block_size < 2 ^ 64
      → (current_records env dcname f.name other s).0 ≡ ok (ino, bm)
      → ino.key ≡ half_of_sealed env aes_key
  unfolding new_isize
  loaded_key dcname aes_key descs t other ino bm s f same short l small e =
      let n = new_isize 0 (length descs) in
      let whole = bytes_at-exact aes_key 16 l in
      let (long, _, is) =
        sealed_key-decrypt env readable (bytes_at (of_bytes aes_key) 0 16) f.key
          (ap length whole ∙ l) f.sealed in
      let r =
        ap (λ (v : S). env.srv.read_record dcname f.name max_inode_record_size v) same
        ∙ read-IsVersion env readable f short in
      let full = non_empty f.name (digest.sizes _ f.name f.inode_record.called) in
      key-current_records env dcname f.name other _ s ino bm full r e
      ∙ ap (λ (p : Pdu). bytes_at (of_bytes p.payload_in_transit) 8 16)
          (readable.protobuf.parse-to_array _)
      ∙ half_key n f.key (ground arith) long
      ∙ ap (λ (k : Bytes). bytes_at (of_bytes k) 0 16) is
      ∙ ap (half_of_sealed env) whole

  -- The second version of a file is under another key than its blocks. A first `Modify` of a capsule
  -- returned NO_ERR, and a second, that names the version which the first made, did so too. Then
  -- `ReadFileMeta` succeeds with the size of the blocks of the second write alone, and with a key
  -- that is the first half of the encrypted key of the file, whatever key the second `Modify` was given.
  -- Relied on: what `IsReadable` and `IsDigest` say of the server, the protocol buffers, the
  -- digests and the cipher; that the client can sign the capsule's name; a name of at most 32 bytes, a
  -- key of 16, and sizes below 2^64.
  pub second_version-key :
      (dcname aes_key other sig : Bytes) (descs more : List BufDesc) (m t u : Mid S)
      → latest dcname m.index ≡ []
      → modify_latest env dcname descs [] aes_key m ≡ (ok tt, t)
      → modify_latest env dcname more (latest dcname t.index) other t ≡ (ok tt, u)
      → sign_args env dcname ≡ ok sig
      → length dcname ≤ 32
      → length aes_key ≡ 16
      → length descs * default_block_size < 2 ^ 64
      → length more * default_block_size < 2 ^ 64
      → (meta : FileMeta) × (read_file_meta env dcname u ≡ (ok meta, u))
        × (meta.aes_key ≡ half_of_sealed env aes_key)
        × (meta.i_size ≡ length more * default_block_size)
  unfolding latest new_isize
  second_version-key dcname aes_key other sig descs more m t u empty e e' signs short l small
        small' =
      let f = modify_latest-IsFirst env dcname descs aes_key m t empty e in
      let s : Mid S = record t { index = touch dcname t.index } in
      let (ino, bm, p, v) =
        push_version-IsVersion env dcname more other s u
          (sym (modify_latest-current env dcname more (latest dcname t.index) other t refl) ∙ e') in
      let named : latest dcname s.index ≡ f.name =
        latest-touch dcname dcname t.index ∙ ap or_empty f.current in
      let p' =
        subst (λ (o : Bytes). (current_records env dcname o other s).0 ≡ ok (ino, bm)) named p in
      let v' = subst (λ (o : Bytes). IsVersion env dcname o ino bm more u) named v in
      let key = loaded_key dcname aes_key descs t other ino bm s f refl short l small p' in
      let no_size = isize-current_records env dcname f.name other s ino bm p' in
      let size : new_isize ino.isize (length more) ≡ length more * default_block_size =
        ground arith in
      let full = if_empty-bounded f.name dcname (digest.sizes _ f.name f.inode_record.called) in
      let sixteen : length ino.key ≡ 16 = ap length key ∙ length-bytes_at _ 0 16 in
      (
        _,
        read_file_meta-IsVersion env readable v' sig signs full sixteen (omega (arith, size)),
        key,
        size,
      )
