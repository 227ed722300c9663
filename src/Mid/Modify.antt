-- ===== src/Mid/Modify.antt =====
-- fs/backend_sim.cpp, DCFSMidSim: CreateNew, GetRoot, GetInodeName, Modify and DecryptAESKey.
use dcfs_client.Base.{
  ℕ, ◌+◌, ◌*◌, Bool, true, false, Option, none, some, List, [], ◌∷◌, ◌++◌, Bytes, length, bytes_eq,
  of_bytes, bytes_at, leb, ◌==◌, Outcome, ok, err, fault, err_not_found, err_verify, Exec, pure,
  lift, ◌>>=◌, ◌>>◌, if◌then◌else◌,
}
use dcfs_client.Crypto.{hash256, verify, encrypt_symmetric, decrypt_symmetric}
use dcfs_client.Capsule.{RecordType, meta, inode, blockmap, datablock}
use dcfs_client.Cache.{BufDesc}
use dcfs_client.Mid.{Env, Mid, find, assign, latest, touch, compose_record, put_record, get_pdu}
use dcfs_client.Mid.Payload.{
  split_hashes, join_hashes, put_hashes, inode_payload, default_block_size,
}

pub record InodeRecord : Type 0 where
  pub isize : ℕ
  pub blockmap_hash : Bytes
  pub key : Bytes

pub record BlockMapRecord : Type 0 where
  pub data_hashes : List Bytes
  pub hash_to_latest_data_block : Bytes

-- `header().prevhash(1)`, which is undefined where the header has fewer than two.
unfoldable pub second_prevhash : List Bytes → Outcome Bytes
second_prevhash [] = fault
second_prevhash (a ∷ []) = fault
second_prevhash (a ∷ b ∷ rest) = ok b

abbrev pub max_inode_record_size : ℕ
max_inode_record_size = 1024

-- 1024 + 32 * BLOCKMAP_COVER, and BLOCKMAP_COVER is 16 * 1024 / 32
abbrev pub max_blockmap_record_size : ℕ
max_blockmap_record_size = 1024 + 32 * 512

abbrev pub is_empty : Bytes → Bool
is_empty [] = true
is_empty (x ∷ xs) = false

unfoldable pub last_name : List (ℕ × Bytes) → Outcome Bytes
last_name [] = fault
last_name ((o, n) ∷ []) = ok n
last_name ((o, n) ∷ (p, m) ∷ blocks) = last_name ((p, m) ∷ blocks)

-- The buffers of the blocks one after the other, and what follows.
bufs : List BufDesc → Bytes → Bytes
bufs [] rest = rest
bufs (d ∷ ds) rest = d.buf ++ bufs ds rest

-- What is signed and verified: the arguments, one after the other.
unfoldable pub modify_args : Bytes → List BufDesc → Bytes → Bytes → Bytes
unfolding bufs
modify_args dcname descs inode_hash aes_key = dcname ++ bufs descs (inode_hash ++ aes_key)

-- `isize` after the update, of a write of `n` blocks.
unfoldable pub new_isize : ℕ → ℕ → ℕ
new_isize isize n = if leb isize (n * default_block_size) then n * default_block_size else isize

abbrev pub if_empty : Bytes → Bytes → Bytes
if_empty name other = if is_empty name then other else name

module _ {S : Type 0} (env : Env S) where
  -- `hash256` and `verify`; a NULL digest would be dereferenced, where there is a key.
  checked : Option Bytes → Bytes → Outcome (Unit {0})
  checked none sig = elim env.client_key [ none ↦ err err_verify | some _ ↦ fault ]
  checked (some d) sig = if verify env.ssl env.client_key d sig then ok tt else err err_verify

  unfoldable pub check_signature : Bytes → Bytes → Outcome (Unit {0})
  unfolding checked
  check_signature args sig = checked (hash256 env.ssl args) sig

  -- `composeRecord`'s result is not tested; had it failed, the record would be undefined.
  unfoldable pub create_new : Exec (Mid S) (Bytes × Bytes)
  create_new m =
      let (r, m') = compose_record env meta [] none m in
      elim r [
        | ok (bytes, name) ↦
            (do
              put_record env name name bytes
              λ m. (
                ok (name, env.fresh_key m.keys),
                record m { index = assign name [] m.index; keys = m.keys + 1 },
              ))
              m'
        | err e ↦ (fault, m')
        | fault ↦ (fault, m')
      ]

  unfoldable pub get_root : Exec (Mid S) (Bytes × Bytes)
  get_root m = (ok m.root, m)

  unfoldable pub get_inode_name : Bytes → Bytes → Exec (Mid S) Bytes
  get_inode_name hashname sig = do
    lift (check_signature hashname sig)
    λ m. (elim (find hashname m.index) [ none ↦ err err_not_found | some name ↦ ok name ], m)

  -- The records of the version that `index_` names. Only the block map's hash and the key are taken
  -- from the inode record: `isize` stays 0. The key is the first half of the encrypted one.
  load_records : Bytes → Bytes → Exec (Mid S) (InodeRecord × BlockMapRecord)
  load_records dcname name = do
    ino ← get_pdu env dcname name max_inode_record_size
    bm_hash ← lift (second_prevhash ino.header.prevhash)
    bm ← get_pdu env dcname bm_hash max_blockmap_record_size
    data_hash ← lift (second_prevhash bm.header.prevhash)
    let payload = bm.payload_in_transit
    pure (
      record {
        isize = 0;
        blockmap_hash = bm_hash;
        key = bytes_at (of_bytes ino.payload_in_transit) 8 16;
      },
      record {
        data_hashes = split_hashes (length payload) payload 0;
        hash_to_latest_data_block = data_hash;
      },
    )

  unfoldable pub current_records :
      Bytes → Bytes → Bytes → Exec (Mid S) (InodeRecord × BlockMapRecord)
  unfolding load_records
  current_records dcname name aes_key =
      if is_empty name
      then pure (
        record { isize = 0; blockmap_hash = []; key = bytes_at (of_bytes aes_key) 0 16 },
        record { data_hashes = []; hash_to_latest_data_block = [] },
      )
      else load_records dcname name

  -- A record composed and written; its name.
  unfoldable pub push_record : Bytes → RecordType → List Bytes → Bytes → Exec (Mid S) Bytes
  push_record dcname type hashes payload = do
    composed ← compose_record env type hashes (some payload)
    put_record env dcname (composed.1) (composed.0)
    pure (composed.1)

  -- The loop over the new blocks; `prev` is the name of the block before, "" at the first.
  unfoldable pub push_blocks :
      Bytes → Bytes → List BufDesc → Bytes → Exec (Mid S) (List (ℕ × Bytes))
  push_blocks dcname latest_block [] prev = pure []
  push_blocks dcname latest_block (d ∷ ds) prev = do
    name ← push_record dcname datablock (if_empty prev (if_empty latest_block dcname) ∷ []) d.buf
    rest ← push_blocks dcname latest_block ds name
    pure ((d.file_offset, name) ∷ rest)

  unfoldable pub push_blockmap :
      Bytes → InodeRecord → BlockMapRecord → List (ℕ × Bytes) → Exec (Mid S) Bytes
  push_blockmap dcname ino bm blocks = do
    newest ← lift (last_name blocks)
    push_record dcname blockmap (if_empty ino.blockmap_hash dcname ∷ newest ∷ [])
        (join_hashes (put_hashes ino.isize bm.data_hashes blocks))

  unfoldable pub sealed_key : Bytes → Outcome Bytes
  sealed_key key =
      let r = encrypt_symmetric env.ssl env.middleware_key none key 0 in
      if r.outlen == 32 then ok r.out else fault

  unfoldable pub push_inode : Bytes → Bytes → InodeRecord → Bytes → ℕ → Exec (Mid S) Bytes
  unfolding sealed_key
  push_inode dcname old ino bm_name n = do
    key ← lift (sealed_key ino.key)
    push_record dcname inode (if_empty old dcname ∷ bm_name ∷ [])
        (inode_payload (new_isize ino.isize n) key)

  -- From the records that are there to the new ones: data blocks, block map, inode, and at last the
  -- index.
  unfoldable pub push_version : Bytes → List BufDesc → Bytes → Exec (Mid S) (Unit {0})
  push_version dcname descs aes_key m =
      let old = latest dcname m.index in
      (do
        records ← current_records dcname old aes_key
        blocks ← push_blocks dcname (records.1).hash_to_latest_data_block descs []
        bm_name ← push_blockmap dcname (records.0) (records.1) blocks
        name ← push_inode dcname old (records.0) bm_name (length descs)
        λ m. (ok tt, record m { index = assign dcname name m.index }))
        m

  -- `Modify` after the signature. The test against `index_[dcname]` makes the entry, so the later
  -- test for a missing one, which would return ERR_NOT_FOUND, never holds. The -1 of the source is
  -- ERR_NOT_FOUND too.
  unfoldable pub modify_latest : Bytes → List BufDesc → Bytes → Bytes → Exec (Mid S) (Unit {0})
  modify_latest dcname descs inode_hash aes_key m =
      let m' : Mid S = record m { index = touch dcname m.index } in
      if bytes_eq inode_hash (latest dcname m.index)
      then (elim (find dcname m'.index) [
        | none ↦ (err err_not_found, m')
        | some _ ↦ push_version dcname descs aes_key m'
      ])
      else (err err_not_found, m')

  unfoldable pub modify : Bytes → List BufDesc → Bytes → Bytes → Bytes → Exec (Mid S) (Unit {0})
  modify dcname descs inode_hash aes_key sig = do
    lift (check_signature (modify_args dcname descs inode_hash aes_key) sig)
    modify_latest dcname descs inode_hash aes_key

  decrypted_key : ℕ → Bytes → Outcome Bytes
  decrypted_key n out = if n == 16 then ok out else fault

  unfoldable pub decrypt_aes_key : Bytes → Outcome Bytes
  unfolding decrypted_key
  decrypt_aes_key encrypted_key =
      let r = decrypt_symmetric env.ssl env.middleware_key none encrypted_key 0 in
      decrypted_key r.outlen r.out
