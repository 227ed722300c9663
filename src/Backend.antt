-- ===== src/Backend.antt =====
-- fs/backend.cpp, class StorageBackend: the client's side of the middleware protocol.
pub mod Serving
pub mod Signed
pub mod Meta
pub mod Stored
pub mod Content
pub mod Reopened
pub mod Reread
pub mod Later
use dcfs_client.Base.{
  ℕ, ◌+◌, ◌*◌, Bool, true, false, Option, none, some, List, [], ◌∷◌, Bytes, length, of_bytes,
  bytes_at, ltb, leb, Outcome, ok, err, fault, err_sign, err_buf_too_small, Exec, pure, lift, ◌>>=◌,
  ◌>>◌, if◌then◌else◌,
}
use dcfs_client.Crypto.{hash256, sign}
use dcfs_client.Capsule.{Pdu}
use dcfs_client.Directory.{Directory, new_directory}
use dcfs_client.Cache.{BufDesc}
use dcfs_client.Mid.{Env, Mid}
use dcfs_client.Mid.Payload.{decode_word}
use dcfs_client.Mid.Modify.{
  modify, modify_args, create_new, get_inode_name, decrypt_aes_key, max_inode_record_size,
}

-- RECORD_HEADER_SIZE + SPARE_HASH_SPACE
abbrev pub header_room : ℕ
header_room = 256 + 32 * 10

pub record FileMeta : Type 0 where
  pub recordname : Bytes
  pub i_size : ℕ
  pub aes_key : Bytes
  pub blockmap_hash : Bytes

-- `LoadRoot`, which asks nobody.
abbrev pub load_root : Directory
load_root = new_directory

module _ {S : Type 0} (env : Env S) where
  -- `hash256` of the arguments and `sign`; a NULL digest would be dereferenced, where there is a key.
  signed : Option Bytes → Outcome Bytes
  signed none = elim env.client_key [ none ↦ err err_sign | some _ ↦ fault ]
  signed (some d) = elim (sign env.ssl env.client_key d) [ none ↦ err err_sign | some s ↦ ok s ]

  unfoldable pub sign_args : Bytes → Outcome Bytes
  unfolding signed
  sign_args args = signed (hash256 env.ssl args)

  unfoldable pub read_record : Bytes → Bytes → ℕ → Mid S → Outcome Bytes
  read_record dcname recordname room m =
      elim (env.srv.read_record dcname recordname room m.server) [
        | ok bytes ↦ if ltb room (length bytes) then err err_buf_too_small else ok bytes
        | err e ↦ err e
        | fault ↦ fault
      ]

  fitting : ℕ → Bytes → Outcome Bytes
  fitting room payload = if ltb room (length payload) then err err_buf_too_small else ok payload

  -- The payload of a record, of at most `room` bytes.
  unfoldable pub read_record_data : Bytes → Bytes → ℕ → Mid S → Outcome Bytes
  unfolding fitting
  read_record_data dcname recordname room m =
      elim (env.srv.read_record dcname recordname (room + header_room) m.server) [
        | ok bytes ↦ fitting room (env.pb.parse_from_array bytes).payload_in_transit
        | err e ↦ err e
        | fault ↦ fault
      ]

  -- `WriteRecord`: nothing to write is no error, and nothing is sent.
  unfoldable pub write_record : Bytes → List BufDesc → Bytes → Bytes → Exec (Mid S) (Unit {0})
  write_record dcname [] inode_recordname aes_key = pure tt
  write_record dcname (d ∷ ds) inode_recordname aes_key = do
    sig ← lift (sign_args (modify_args dcname (d ∷ ds) inode_recordname aes_key))
    modify env dcname (d ∷ ds) inode_recordname aes_key sig

  unfoldable pub create_new_file : Exec (Mid S) (Bytes × Bytes)
  create_new_file = create_new env

  -- The result of the read is tested only by the assertion on the parsed header: where it failed,
  -- the bytes parsed are none, and the error is returned if that got through.
  meta_of : Bytes → Pdu → Outcome FileMeta
  meta_of recordname pdu = elim pdu.header.prevhash [
    | [] ↦ fault
    | a ∷ r ↦ elim r [
      | [] ↦ fault
      | b ∷ s ↦ elim s [
        | [] ↦
            let mem = of_bytes pdu.payload_in_transit in
            elim (decrypt_aes_key env (bytes_at mem 8 32)) [
              | ok key ↦ ok (record {
                recordname = recordname;
                i_size = decode_word 8 mem 0;
                aes_key = key;
                blockmap_hash = b;
              })
              | err e ↦ err e
              | fault ↦ fault
            ]
        | x ∷ y ↦ fault
      ]
    ]
  ]

  parsed_meta : Bytes → Outcome Bytes → Outcome FileMeta
  unfolding meta_of
  parsed_meta name (ok bytes) = meta_of name (env.pb.parse_from_array bytes)
  parsed_meta name (err e) = elim (meta_of name (env.pb.parse_from_array [])) [
    | ok _ ↦ err e
    | err _ ↦ err e
    | fault ↦ fault
  ]
  parsed_meta name fault = fault

  unfoldable pub read_file_meta : Bytes → Exec (Mid S) FileMeta
  unfolding parsed_meta
  read_file_meta hashname = do
    sig ← lift (sign_args hashname)
    name ← get_inode_name env hashname sig
    λ m. (parsed_meta name (env.srv.read_record hashname name max_inode_record_size m.server), m)
