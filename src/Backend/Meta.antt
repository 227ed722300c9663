-- ===== src/Backend/Meta.antt =====
-- What `ReadFileMeta` reads of the version that `Modify` made.
use dcfs_client.Base.{
  none, ℕ, ◌*◌, ◌^◌, ◌≤◌, ◌<◌, ◌≡◌, refl, sym, ap, ap₂, ◌∙◌, true, some, List, [], ◌∷◌, ◌++◌, Bytes,
  length, ascii, of_bytes, bytes_at, ◌==◌, ok, ok-injective, subst, arith, inl, inr, Bool-cases,
}
use dcfs_client.Crypto.{hash256, encrypt_symmetric}
use dcfs_client.Crypto.Laws.{IsCipher, IsSigner, decrypt-encrypt_all, outlen-encrypt}
use dcfs_client.Capsule.{inode, blockmap, record_type_to_string, Pdu, IsProtobuf, IsServer}
use dcfs_client.Cache.{BufDesc}
use dcfs_client.Mid.{Env, Mid, find, latest, compose_header, compose_pdu}
use dcfs_client.Mid.FirstVersion.{IsVersion, IsFirst, modify_latest-IsFirst}
use dcfs_client.Mid.Modify.{
  InodeRecord, BlockMapRecord, if_empty, modify_latest, sealed_key, new_isize, decrypt_aes_key,
  get_inode_name, max_inode_record_size,
}
use dcfs_client.Mid.Payload.{default_block_size, inode_payload}
use dcfs_client.Mid.Payload.RoundTrip.{bytes_at-exact, length-inode_payload, read-inode_payload}
use dcfs_client.Mid.Written.{IsWritten}
use dcfs_client.Backend.{FileMeta, sign_args, read_file_meta, parsed_meta, meta_of}
use dcfs_client.Backend.Signed.{check-sign}

-- An inode record with two names of at most 32 bytes, hashes as short, and 40 bytes of payload.
pub record IsSmall (client_ip : Bytes) (p : Pdu) : Type 0 where
  pub names :
      (a : Bytes) × (b : Bytes) × (p.header.prevhash ≡ a ∷ b ∷ [])
      × (length a ≤ 32)
      × (length b ≤ 32)
  pub hash : length p.header.hash ≤ 32
  pub sender : p.header.sender ≡ 0
  pub msgtype : p.header.msgtype ≡ ascii "INODE"
  pub replyaddr : p.header.replyaddr ≡ client_ip ++ ascii ":5001"
  pub header_hash : length p.header_hash ≤ 32
  pub signature : p.signature ≡ ascii "0"
  pub payload : length p.payload_in_transit ≡ 40

-- What ReadFileMeta relies on, besides its server: the protocol buffers, the cipher and the
-- signatures; digests of 32 bytes; and that a small record fits the buffer.
pub record IsReadable {S : Type 0} (env : Env S) : Type 0 where
  pub server : IsServer env.srv
  pub protobuf : IsProtobuf env.pb
  pub cipher : IsCipher env.ssl
  pub signer : IsSigner env.ssl
  pub digest : (d h : Bytes) → hash256 env.ssl d ≡ some h → length h ≤ 32
  pub seals :
      (plain : Bytes) → (encrypt_symmetric env.ssl env.middleware_key none plain 0).success ≡ true
  pub fits :
      (p : Pdu) → IsSmall env.client_ip p → length (env.pb.pdu_to_array p) ≤ max_inode_record_size

module _ {S : Type 0} (env : Env S) (ax : IsReadable env) where
  pub sealed_key-decrypt :
      (plain key : Bytes)
      → length plain ≡ 16
      → sealed_key env plain ≡ ok key
      → (length key ≡ 32)
        × (decrypt_aes_key env key ≡ ok plain)
        × (key ≡ (encrypt_symmetric env.ssl env.middleware_key none plain 0).out)
  unfolding sealed_key decrypt_aes_key
  sealed_key-decrypt plain key l e =
      let r = encrypt_symmetric env.ssl env.middleware_key none plain 0 in
      let done = ax.seals plain in
      let n = outlen-encrypt env.ssl env.middleware_key none plain 0 done in
      let back = decrypt-encrypt_all ax.cipher env.middleware_key none plain 0 0 done in
      elim (Bool-cases (r.outlen == 32)) [
        | inl t ↦
            let f : ok r.out ≡ ok key = rw (sealed_key, t) at e in
            let is : r.out ≡ key = ok-injective f in
            let size : length key ≡ 32 = ground (arith, ap length is) in
            (
              size,
              subst (λ (k : Bytes). decrypt_aes_key env k ≡ ok plain) is
                  (rw (decrypt_aes_key, back, l) refl),
              sym is,
            )
        | inr t ↦ let f = rw (sealed_key, t) at e in cc
      ]

  module _ {dcname old : Bytes} {ino : InodeRecord} {bm : BlockMapRecord} {descs : List BufDesc}
      {t : Mid S} (v : IsVersion env dcname old ino bm descs t) where
    -- The inode record of the version.
    abbrev inode_pdu : Pdu
    inode_pdu =
        compose_pdu env
          (compose_header env inode (if_empty old dcname ∷ v.bm_name ∷ []) v.inode_record.hash
            v.inode_record.time)
          v.name (some (inode_payload (new_isize ino.isize (length descs)) v.key))

    meta_of-IsVersion :
        length ino.key ≡ 16
        → new_isize ino.isize (length descs) < 2 ^ 64
        → meta_of env v.name inode_pdu
          ≡ ok (record {
            recordname = v.name;
            i_size = new_isize ino.isize (length descs);
            aes_key = ino.key;
            blockmap_hash = v.bm_name;
          })
    unfolding meta_of
    meta_of-IsVersion l small =
        let (long, opens, _) = sealed_key-decrypt ino.key v.key l v.sealed in
        let (size, key) =
          read-inode_payload (new_isize ino.isize (length descs)) v.key small long in
        rw (meta_of, key, opens, size) refl

    -- The record that the server gives for the name.
    pub read-IsVersion :
        length (if_empty old dcname) ≤ 32
        → env.srv.read_record dcname v.name max_inode_record_size t.server
          ≡ ok (env.pb.pdu_to_array inode_pdu)
    unfolding record_type_to_string
    read-IsVersion short =
        let w = v.inode_record in
        let small : IsSmall env.client_ip inode_pdu = record {
          names = (
            if_empty old dcname,
            v.bm_name,
            refl,
            short,
            ax.digest _ v.bm_name v.block_map.called,
          );
          hash = ax.digest _ w.hash w.hashed;
          sender = refl;
          msgtype = refl;
          replyaddr = refl;
          header_hash = ax.digest _ v.name w.called;
          signature = refl;
          payload = length-inode_payload (new_isize ino.isize (length descs)) v.key;
        } in
        ax.server.read-write dcname v.name (env.pb.pdu_to_array inode_pdu) max_inode_record_size
          w.before t.server w.sent (ax.fits inode_pdu small)

    -- What `ReadFileMeta` makes of a version.
    pub read_file_meta-IsVersion :
        (sig : Bytes)
        → sign_args env dcname ≡ ok sig
        → length (if_empty old dcname) ≤ 32
        → length ino.key ≡ 16
        → new_isize ino.isize (length descs) < 2 ^ 64
        → read_file_meta env dcname t ≡ (
          ok (record {
            recordname = v.name;
            i_size = new_isize ino.isize (length descs);
            aes_key = ino.key;
            blockmap_hash = v.bm_name;
          }),
          t,
        )
    unfolding read_file_meta parsed_meta get_inode_name find
    read_file_meta-IsVersion sig signs short l small =
        let checked = check-sign env ax.signer dcname sig signs in
        let parsed =
          ap (meta_of env v.name) (ax.protobuf.parse-to_array inode_pdu)
          ∙ meta_of-IsVersion l small in
        rw (read_file_meta, signs, checked, v.current, read-IsVersion short, parsed) refl

  pub read_file_meta-IsFirst :
      (dcname aes_key sig : Bytes) (descs : List BufDesc) (t : Mid S)
      (f : IsFirst env dcname aes_key descs t)
      → sign_args env dcname ≡ ok sig
      → length dcname ≤ 32
      → length aes_key ≡ 16
      → length descs * default_block_size < 2 ^ 64
      → read_file_meta env dcname t ≡ (
        ok (record {
          recordname = f.name;
          i_size = length descs * default_block_size;
          aes_key = aes_key;
          blockmap_hash = f.bm_name;
        }),
        t,
      )
  unfolding new_isize
  read_file_meta-IsFirst dcname aes_key sig descs t f signs short l small =
      let isize : new_isize 0 (length descs) ≡ length descs * default_block_size = ground arith in
      let plain : bytes_at (of_bytes aes_key) 0 16 ≡ aes_key = bytes_at-exact aes_key 16 l in
      let meta = λ (n : ℕ) (key : Bytes).
        let made : FileMeta = record {
          recordname = f.name;
          i_size = n;
          aes_key = key;
          blockmap_hash = f.bm_name;
        } in
        made in
      read_file_meta-IsVersion f sig signs short (ap length plain ∙ l) (omega (arith, isize))
      ∙ ap₂ (λ (n : ℕ) (key : Bytes). (ok (meta n key), t)) isize plain

  -- What the client reads of a file after its first write. When `Modify` of a capsule that has no
  -- version, naming none, returns NO_ERR, then `ReadFileMeta` of it succeeds and changes nothing: the
  -- record name is the one that the index now has, the size is that of the blocks written, the key is
  -- the one given to `Modify`, and the block map is a record that was written. The server keeps what
  -- it is given, what was serialised parses, ciphers and signatures invert, digests have 32 bytes and
  -- small records fit the buffer (`IsReadable`); the client can sign, the capsule's name has at most 32
  -- bytes, the key 16, and the size is below 2^64.
  pub modify-read_file_meta :
      (dcname aes_key sig : Bytes) (descs : List BufDesc) (m t : Mid S)
      → latest dcname m.index ≡ []
      → modify_latest env dcname descs [] aes_key m ≡ (ok tt, t)
      → sign_args env dcname ≡ ok sig
      → length dcname ≤ 32
      → length aes_key ≡ 16
      → length descs * default_block_size < 2 ^ 64
      → (meta : FileMeta) × (read_file_meta env dcname t ≡ (ok meta, t))
        × (find dcname t.index ≡ some meta.recordname)
        × (meta.i_size ≡ length descs * default_block_size)
        × (meta.aes_key ≡ aes_key)
        × (hashes : List Bytes) × (payload : Bytes) × (server : S) × IsWritten env dcname blockmap
            hashes payload meta.blockmap_hash server
  modify-read_file_meta dcname aes_key sig descs m t empty e signs short l small =
      let f = modify_latest-IsFirst env dcname descs aes_key m t empty e in
      (
        _,
        read_file_meta-IsFirst dcname aes_key sig descs t f signs short l small,
        f.current,
        refl,
        refl,
        f.bm_hashes,
        f.bm_payload,
        f.after_map.server,
        f.block_map,
      )
