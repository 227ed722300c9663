-- ===== src/DcServer/Sim.antt =====
-- fs/backend_sim.cpp and fs/backend.hpp, class DCServerSim: a record is a file, in a directory for its
-- capsule. The file system is a parameter.
pub mod Serving
use dcfs_client.Base.{
  ℕ, Bool, true, false, Option, none, some, Bytes, ◌++◌, length, ascii, bytes_eq, leb,
  if◌then◌else◌, Outcome, ok, err, fault, err_not_found, err_io, Exec,
}
use dcfs_client.Encode.{binary_to_hex_string}
use dcfs_client.Capsule.{Server}

-- How writing a file ends: it cannot be opened, the write fails, or the bytes are in it.
pub data WriteResult : Type 0 where
  not_open write_failed written : WriteResult

-- `content` is the file that an `ifstream` opens, `readable` whether reading all of it goes well; and
-- `create_directories` is `none` where it throws.
pub record FileSystem (F : Type 0) : Type 0 where
  pub exists : Bytes → F → Bool
  pub create_directories : Bytes → F → Option F
  pub content : Bytes → F → Option Bytes
  pub readable : Bytes → F → Bool
  pub write_file : Bytes → Bytes → F → WriteResult × F

abbrev pub dcpath : Bytes → Bytes → Bytes
dcpath mnt_point dcname = mnt_point ++ ascii "/" ++ dcname

abbrev pub recordpath : Bytes → Bytes → Bytes → Bytes
recordpath mnt_point dcname recordname = mnt_point ++ ascii "/" ++ dcname ++ ascii "/" ++ recordname

module _ {F : Type 0} (files : FileSystem F) (mnt_point : Bytes) where
  -- A record that is longer than the buffer fails the assertion.
  abbrev pub read_content : ℕ → Option Bytes → Bool → Outcome Bytes
  read_content room none readable = err err_not_found
  read_content room (some bytes) readable =
      if leb (length bytes) room then (if readable then ok bytes else err err_io) else fault

  unfoldable pub sim_read_record : Bytes → Bytes → ℕ → F → Outcome Bytes
  sim_read_record dcname recordname room s =
      let path =
        recordpath mnt_point (binary_to_hex_string dcname) (binary_to_hex_string recordname) in
      read_content room (files.content path s) (files.readable path s)

  write_ended : WriteResult × F → Outcome (Unit {0}) × F
  write_ended (not_open, s) = (err err_io, s)
  write_ended (write_failed, s) = (err err_io, s)
  write_ended (written, s) = (ok tt, s)

  write_in : Bytes → Bytes → Option F → F → Outcome (Unit {0}) × F
  unfolding write_ended
  write_in path bytes none s = (fault, s)
  write_in path bytes (some t) s = write_ended (files.write_file path bytes t)

  -- The directory is made for the record that has the name of the capsule.
  unfoldable pub sim_write_record : Bytes → Bytes → Bytes → Exec F (Unit {0})
  unfolding write_in
  sim_write_record dcname recordname bytes s =
      let dc = binary_to_hex_string dcname in
      let record_hex = binary_to_hex_string recordname in
      let path = recordpath mnt_point dc record_hex in
      if files.exists (dcpath mnt_point dc) s
      then write_in path bytes (some s) s
      else if bytes_eq dc record_hex
      then write_in path bytes (files.create_directories (dcpath mnt_point dc) s) s
      else (err err_io, s)

  abbrev pub dc_server_sim : Server F
  dc_server_sim = record { read_record = sim_read_record; write_record = sim_write_record }
