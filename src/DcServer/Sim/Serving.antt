-- ===== src/DcServer/Sim/Serving.antt =====
-- The simulated server keeps the promise of the interface DCServer.
use dcfs_client.Base.{
  ℕ, ◌/◌, ◌%◌, ◌≡◌, ◌≢◌, refl, ap, ap₂, ◌∙◌, true, Option, none, some, [], ◌∷◌, ◌++◌, Bytes, length,
  ascii, bytes_eq, leb, Outcome, ok, err, err_io, arith, inl, inr, Bool-cases,
}
use dcfs_client.Encode.{binary_to_hex_string, hex_digit}
use dcfs_client.Capsule.{IsServer}
use dcfs_client.DcServer.Sim.{
  WriteResult, not_open, write_failed, written, FileSystem, dcpath, recordpath, read_content,
  sim_read_record, sim_write_record, write_ended, write_in, dc_server_sim,
}

-- A file that was written has those bytes and can be read; no other file changes, and none does when a
-- directory is made.
pub record IsFileSystem {F : Type 0} (files : FileSystem F) : Type 0 where
  pub content-write :
      (path bytes : Bytes) (s t : F)
      → files.write_file path bytes s ≡ (written, t)
      → (files.content path t ≡ some bytes) × (files.readable path t ≡ true)
  pub content-write_ne :
      (path bytes other : Bytes) (s t : F)
      → files.write_file path bytes s ≡ (written, t)
      → path ≢ other
      → (files.content other t ≡ files.content other s)
        × (files.readable other t ≡ files.readable other s)
  pub content-create :
      (path other : Bytes) (s t : F)
      → files.create_directories path s ≡ some t
      → (files.content other t ≡ files.content other s)
        × (files.readable other t ≡ files.readable other s)

hex_digit-injective : (d e : ℕ) → hex_digit d ≡ hex_digit e → d ≡ e
hex_digit-injective d e h = ground arith

head-injective : (a b : ℕ) (x y : Bytes) → a ∷ x ≡ b ∷ y → (a ≡ b) × (x ≡ y)
head-injective a b x y e = ground arith

hex_names : (x y : Bytes) → binary_to_hex_string x ≡ binary_to_hex_string y → x ≡ y
unfolding binary_to_hex_string
hex_names [] [] e = refl
hex_names [] (b ∷ y) e = cc
hex_names (a ∷ x) [] e = cc
hex_names (a ∷ x) (b ∷ y) e =
    let (high, rest) = head-injective _ _ _ _ e in
    let (low, more) = head-injective _ _ _ _ rest in
    let h = hex_digit-injective (a / 16) (b / 16) high in
    let l = hex_digit-injective (a % 16) (b % 16) low in
    ap₂ ◌∷◌ (omega (arith, h, l)) (hex_names x y more)

append-cancel : (p x y : Bytes) → p ++ x ≡ p ++ y → x ≡ y
append-cancel [] x y e = e
append-cancel (c ∷ p) x y e = append-cancel p x y (head-injective c c _ _ e).1

recordpath-injective :
    (mnt_point dc a b : Bytes)
    → recordpath mnt_point dc (binary_to_hex_string a)
      ≡ recordpath mnt_point dc (binary_to_hex_string b)
    → a ≡ b
recordpath-injective mnt_point dc a b e =
    hex_names a b (append-cancel (mnt_point ++ ascii "/" ++ dc ++ ascii "/") _ _ e)

module _ {F : Type 0} (files : FileSystem F) (ax : IsFileSystem files) (mnt_point : Bytes) where
  write_ended-written :
      (x : WriteResult × F) (t : F) → write_ended files mnt_point x ≡ (ok tt, t) → x ≡ (written, t)
  unfolding write_ended
  write_ended-written (not_open, s) t e = cc
  write_ended-written (write_failed, s) t e = cc
  write_ended-written (written, s) t e = ground arith

  write_in-written :
      (path bytes : Bytes) (o : Option F) (s t : F)
      → write_in files mnt_point path bytes o s ≡ (ok tt, t)
      → (u : F) × (o ≡ some u) × (files.write_file path bytes u ≡ (written, t))
  unfolding write_in
  write_in-written path bytes none s t e = cc
  write_in-written path bytes (some u) s t e =
      (u, refl, write_ended-written (files.write_file path bytes u) t e)

  write_in_here :
      (path bytes : Bytes) (s t : F)
      → write_in files mnt_point path bytes (some s) s ≡ (ok tt, t)
      → files.write_file path bytes s ≡ (written, t)
  unfolding write_in
  write_in_here path bytes s t e = write_ended-written (files.write_file path bytes s) t e

  -- What a successful `WriteRecord` did: it wrote the file, in a state that has the same files.
  sim_write_record-written :
      (dcname recordname bytes : Bytes) (s t : F)
      → sim_write_record files mnt_point dcname recordname bytes s ≡ (ok tt, t)
      → (u : F) × (files.write_file
            (recordpath mnt_point (binary_to_hex_string dcname) (binary_to_hex_string recordname))
            bytes
            u
          ≡ (written, t))
        × ((other : Bytes)
            → (files.content other u ≡ files.content other s)
              × (files.readable other u ≡ files.readable other s))
  unfolding sim_write_record
  sim_write_record-written dcname recordname bytes s t e =
      let dc = binary_to_hex_string dcname in
      let record_hex = binary_to_hex_string recordname in
      let path = recordpath mnt_point dc record_hex in
      elim (Bool-cases (files.exists (dcpath mnt_point dc) s)) [
        | inl x ↦
            let f : write_in files mnt_point path bytes (some s) s ≡ (ok tt, t) =
              rw (sim_write_record, x) at e in
            (s, write_in_here path bytes s t f, λ other. (refl, refl))
        | inr x ↦ elim (Bool-cases (bytes_eq dc record_hex)) [
          | inl y ↦
              let made = files.create_directories (dcpath mnt_point dc) s in
              let f : write_in files mnt_point path bytes made s ≡ (ok tt, t) =
                rw (sim_write_record, x, y) at e in
              let (u, is, w) = write_in-written path bytes made s t f in
              (u, w, λ other. ax.content-create (dcpath mnt_point dc) other s u is)
          | inr y ↦
              let f = rw (sim_write_record, x, y) at e in
              let no : err err_io ≡ ok tt = ap (λ (z : Outcome (Unit {0}) × F). z.0) f in cc
        ]
      ]

  -- The simulated server meets the interface DCServer that the rest of the file system relies on: a
  -- record that WriteRecord wrote is read back into any buffer that holds it, and every other record of
  -- the capsule reads as before. The file system keeps the bytes written to a file, and lets no write
  -- and no new directory change another file.
  pub dc_server_sim-IsServer : IsServer (dc_server_sim files mnt_point)
  unfolding sim_read_record
  dc_server_sim-IsServer = record {
    read-write = λ dcname recordname bytes room s t e l.
        (let (u, w, _) = sim_write_record-written dcname recordname bytes s t e in
          let (got, good) = ax.content-write _ bytes u t w in
          let fits : leb (length bytes) room ≡ true = ground arith in
          rw (sim_read_record, got, fits, good) refl);
    read-write_ne = λ dcname recordname bytes other room s t e ne.
        (let (u, w, same) = sim_write_record-written dcname recordname bytes s t e in
          let dc = binary_to_hex_string dcname in
          let path = recordpath mnt_point dc (binary_to_hex_string other) in
          let (got, good) =
            ax.content-write_ne _ bytes path u t w
              (λ p. ne (recordpath-injective mnt_point dc recordname other p)) in
          let (before, fine) = same path in
          ap₂ (read_content files mnt_point room) (got ∙ before) (good ∙ fine));
  }
