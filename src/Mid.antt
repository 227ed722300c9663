-- ===== src/Mid.antt =====
-- fs/backend.hpp and fs/backend_sim.cpp, class DCFSMidSim: the middleware that turns writes of
-- blocks into records of a DataCapsule. Here its state, the index and `composeRecord`; the children
-- have the methods.
pub mod Index
pub mod Payload
pub mod Modify
pub mod Safety
pub mod Versions
pub mod Written
pub mod FirstVersion
pub mod Kept
use dcfs_client.Base.{
  ℕ, zero, suc, ◌+◌, Bool, true, false, Option, none, some, List, [], ◌∷◌, ◌++◌, Bytes, ascii,
  bytes_eq, Outcome, ok, err, fault, Err, err_hash, Exec, pure, lift, ◌>>=◌, ◌>>◌, if◌then◌else◌,
}
use dcfs_client.Crypto.{OpenSsl, hash256}
use dcfs_client.Capsule.{RecordType, record_type_to_string, Header, Pdu, Protobuf, Server}

-- What a middleware is built with. `now k` is the time that the k-th reading of the clock gives, and
-- `fresh_key k` the buffer that the k-th `generate_symmetric_key` leaves.
pub record Env (S : Type 0) : Type 0 where
  pub ssl : OpenSsl
  pub pb : Protobuf
  pub srv : Server S
  pub client_key : Option ℕ
  pub middleware_key : Bytes
  pub client_ip : Bytes
  pub now : ℕ → ℕ
  pub fresh_key : ℕ → Bytes

-- `index_` maps a capsule to the name of its latest inode record.
pub record Mid (S : Type 0) : Type 0 where
  pub index : List (Bytes × Bytes)
  pub root : Bytes × Bytes
  pub server : S
  pub ticks : ℕ
  pub keys : ℕ

-- `index_.find`
unfoldable pub find : Bytes → List (Bytes × Bytes) → Option Bytes
find k [] = none
find k ((j, v) ∷ m) = let rest = find k m in if bytes_eq j k then some v else rest

-- `index_[k] = v`
unfoldable pub assign : Bytes → Bytes → List (Bytes × Bytes) → List (Bytes × Bytes)
assign k v [] = (k, v) ∷ []
assign k v ((j, w) ∷ m) =
    let rest = assign k v m in if bytes_eq j k then (k, v) ∷ m else (j, w) ∷ rest

abbrev pub or_empty : Option Bytes → Bytes
or_empty none = []
or_empty (some v) = v

-- The value of `index_[k]`.
unfoldable pub latest : Bytes → List (Bytes × Bytes) → Bytes
latest k m = or_empty (find k m)

-- Reading `index_[k]` makes an entry "" where there is none.
unfoldable pub touch : Bytes → List (Bytes × Bytes) → List (Bytes × Bytes)
touch k m = elim (find k m) [ none ↦ assign k [] m | some v ↦ m ]

-- `err_hash` where OpenSSL gave no digest.
abbrev pub or_err_hash : Option Bytes → Outcome Bytes
or_err_hash none = err err_hash
or_err_hash (some d) = ok d

module _ {S : Type 0} (env : Env S) where
  tick : Exec (Mid S) ℕ
  tick m = (ok (env.now m.ticks), record m { ticks = m.ticks + 1 })

  payload_hash : Option Bytes → Outcome Bytes
  payload_hash none = ok (ascii "0")
  payload_hash (some payload) = or_err_hash (hash256 env.ssl payload)

  abbrev pub with_default : Option Bytes → Bytes
  with_default none = []
  with_default (some payload) = payload

  -- The address for acknowledgements: NET_CLIENT_RECV_ACK_PORT + CLIENT_ID is 5001.
  abbrev pub compose_header : RecordType → List Bytes → Bytes → ℕ → Header
  compose_header type hashes hash time = record {
    sender = 0;
    prevhash = hashes;
    hash = hash;
    timestamp = time;
    msgtype = record_type_to_string type;
    replyaddr = env.client_ip ++ ascii ":5001";
  }

  abbrev pub compose_pdu : Header → Bytes → Option Bytes → Pdu
  compose_pdu header hashname payload = record {
    header = header;
    header_hash = hashname;
    signature = ascii "0";
    payload_in_transit = with_default payload;
  }

  -- The composed record and its name, which is the hash of its header. `none` is a NULL `in_desc`.
  unfoldable pub compose_record :
      RecordType → List Bytes → Option Bytes → Exec (Mid S) (Bytes × Bytes)
  unfolding tick payload_hash
  compose_record type hashes payload = do
    hash ← lift (payload_hash payload)
    time ← tick
    hashname ← lift (
        or_err_hash
          (hash256 env.ssl (env.pb.header_to_array (compose_header type hashes hash time))))
    pure (
      env.pb.pdu_to_array (compose_pdu (compose_header type hashes hash time) hashname payload),
      hashname,
    )

  -- `dcserver_->WriteRecord`
  unfoldable pub put_record : Bytes → Bytes → Bytes → Exec (Mid S) (Unit {0})
  put_record dcname recordname bytes m =
      let (r, s) = env.srv.write_record dcname recordname bytes m.server in
      (r, record m { server = s })

  -- `dcserver_->ReadRecord` and `ParseFromArray`
  unfoldable pub get_pdu : Bytes → Bytes → ℕ → Exec (Mid S) Pdu
  get_pdu dcname recordname room = do
    bytes ← λ m. (env.srv.read_record dcname recordname room m.server, m)
    pure (env.pb.parse_from_array bytes)
