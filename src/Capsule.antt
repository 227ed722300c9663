-- ===== src/Capsule.antt =====
-- dc-client/proto/capsule.proto, fs/backend.hpp: the records of a DataCapsule, and the server that
-- keeps them. Protocol buffers are generated code, and enter as the parameter `Protobuf`.
use dcfs_client.Base.{ℕ, ◌≤◌, ◌≡◌, ◌≢◌, Bytes, List, length, ascii, Outcome, ok, Exec}

pub data RecordType : Type 0 where
  meta directory inode blockmap datablock : RecordType

unfoldable pub record_type_to_string : RecordType → Bytes
record_type_to_string meta = ascii "META"
record_type_to_string directory = ascii "DIRECTORY"
record_type_to_string inode = ascii "INODE"
record_type_to_string blockmap = ascii "BLOCKMAP"
record_type_to_string datablock = ascii "DATABLOCK"

-- The fields of a CapsuleHeader that the program sets.
pub record Header : Type 0 where
  pub sender : ℕ
  pub prevhash : List Bytes
  pub hash : Bytes
  pub timestamp : ℕ
  pub msgtype : Bytes
  pub replyaddr : Bytes

pub record Pdu : Type 0 where
  pub header : Header
  pub header_hash : Bytes
  pub signature : Bytes
  pub payload_in_transit : Bytes

pub record Protobuf : Type 0 where
  pub header_to_array : Header → Bytes
  pub pdu_to_array : Pdu → Bytes
  pub parse_from_array : Bytes → Pdu

-- What was serialised parses to what it was.
pub record IsProtobuf (pb : Protobuf) : Type 0 where
  pub parse-to_array : (p : Pdu) → pb.parse_from_array (pb.pdu_to_array p) ≡ p

-- The interface DCServer: the record's bytes, read into a buffer with the given room, and written
-- under the names of its capsule and of itself.
pub record Server (S : Type 0) : Type 0 where
  pub read_record : Bytes → Bytes → ℕ → S → Outcome Bytes
  pub write_record : Bytes → Bytes → Bytes → Exec S (Unit {0})

-- What a client relies on: a record that was written is read back into any buffer that holds it.
pub record IsServer {S : Type 0} (srv : Server S) : Type 0 where
  pub read-write :
      (dcname recordname bytes : Bytes) (room : ℕ) (s t : S)
      → srv.write_record dcname recordname bytes s ≡ (ok tt, t)
      → length bytes ≤ room
      → srv.read_record dcname recordname room t ≡ ok bytes
  pub read-write_ne :
      (dcname recordname bytes other : Bytes) (room : ℕ) (s t : S)
      → srv.write_record dcname recordname bytes s ≡ (ok tt, t)
      → recordname ≢ other
      → srv.read_record dcname other room t ≡ srv.read_record dcname other room s
