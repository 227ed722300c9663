-- ===== src/Examples/Storage.antt =====
-- The theorem on the simulated server, on files that are a function of their paths.
use dcfs_client.Base.{
  ◌≡◌, ◌≢◌, refl, ap, sym, ◌∙◌, true, Option, some, Bytes, ascii, bytes_eq, bytes_eq_iff,
  bytes_eq_refl, if◌then◌else◌, inl, inr, Bool-cases,
}
use dcfs_client.Capsule.{IsServer}
use dcfs_client.DcServer.Sim.{WriteResult, written, FileSystem, dc_server_sim}
use dcfs_client.DcServer.Sim.Serving.{IsFileSystem, dc_server_sim-IsServer}

-- Files as a function of their paths; every directory is there.
abbrev Files : Type 0
Files = Bytes → Option Bytes

abbrev toy_files : FileSystem Files
toy_files = record {
  exists = λ path s. true;
  create_directories = λ path s. some s;
  content = λ path s. s path;
  readable = λ path s. true;
  write_file = λ path bytes s. (written, λ k. if bytes_eq path k then some bytes else s k);
}

written-state : (a b : Files) → ◌≡◌ {A = WriteResult × Files} (written, a) (written, b) → a ≡ b
written-state a b e = ap (λ (x : WriteResult × Files). x.1) e

some-state : (a b : Files) → some a ≡ some b → a ≡ b
some-state a b e = cc

toy_files-IsFileSystem : IsFileSystem toy_files
toy_files-IsFileSystem = record {
  content-write = λ path bytes s t e. (
    ap (λ (f : Files). f path)
          (sym (written-state (λ k. if bytes_eq path k then some bytes else s k) t e))
        ∙ rw (bytes_eq_refl path) refl,
    refl,
  );
  content-write_ne = λ path bytes other s t e n. (
    ap (λ (f : Files). f other)
          (sym (written-state (λ k. if bytes_eq path k then some bytes else s k) t e))
        ∙ elsewhere path other bytes s n,
    refl,
  );
  content-create = λ path other s t e. (ap (λ (f : Files). f other) (sym (some-state s t e)), refl);
}
  where
    elsewhere :
        (path other bytes : Bytes) (s : Files)
        → path ≢ other
        → (if bytes_eq path other then some bytes else s other) ≡ s other
    elsewhere path other bytes s n = elim (Bool-cases (bytes_eq path other)) [
      | inl t ↦ absurd (n ((bytes_eq_iff path other).0 t))
      | inr t ↦ rw t refl
    ]

dc_server_sim-IsServer_example : IsServer (dc_server_sim toy_files (ascii "/mnt"))
dc_server_sim-IsServer_example =
    dc_server_sim-IsServer toy_files toy_files-IsFileSystem (ascii "/mnt")
