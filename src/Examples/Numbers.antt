-- ===== src/Examples/Numbers.antt =====
-- Digests that differ in their first byte, and parameters that meet all that is relied on.
use dcfs_client.Base.{
  ℕ, ◌+◌, ◌*◌, ◌%◌, ◌≤◌, ◌≡◌, refl, sym, ap, ◌∙◌, true, some, List, [], ◌∷◌, map, ok, bytes_eq,
  bytes_eq_refl, bytes_eq_iff, false, Bool, if◌then◌else◌, Bool-cases, inl, inr, Bytes, length,
  get_or, replicate, arith,
}
use dcfs_client.Crypto.{OpenSsl, hash256, encrypt_symmetric}
use dcfs_client.Crypto.Laws.{IsDigest, IsCipher, IsSigner, IsPadded}
use dcfs_client.Capsule.{Pdu, IsProtobuf, IsServer, Server}
use dcfs_client.Mid.{Env, find}
use dcfs_client.Mid.Kept.{IsLogged, AllDifferent, Has}
use dcfs_client.Backend.{header_room}
use dcfs_client.Backend.Meta.{IsReadable}
use dcfs_client.Backend.Stored.{IsStoring, IsFramed}
use dcfs_client.Examples.Toy.{or_missing, Store, toy_ssl, toy_ssl-IsCipher, toy_env}
use dcfs_client.Examples.Versions.{
  parts, written, total, length-fields, field_protobuf, field_protobuf-IsProtobuf, written_fits,
}

-- One byte of a text.
abbrev checksum : Bytes → ℕ
checksum [] = 7
checksum (x ∷ xs) = (checksum xs * 31 + x) % 256

abbrev pub number_ssl : OpenSsl
number_ssl = record toy_ssl {
  sha256_final = λ d. some (checksum d ∷ replicate 31 0);
  ecdsa_sign = λ k d. some [];
  ecdsa_verify = λ k d s. true;
}

number_ssl-IsCipher : IsCipher number_ssl
number_ssl-IsCipher = record {
  ready = toy_ssl-IsCipher.ready;
  round_trip = toy_ssl-IsCipher.round_trip;
}

number_ssl-IsSigner : IsSigner number_ssl
number_ssl-IsSigner = record { sign_verify = λ k d s e. refl }

pub number_ssl-IsPadded : IsPadded number_ssl
unfolding encrypt_symmetric
number_ssl-IsPadded = record { pads = λ key iv plain n e. omega arith }

-- A server that keeps all that it was ever given, and gives the last of a name.
abbrev number_server : Server Store
number_server = record {
  read_record = λ dcname name room s. or_missing (find name s);
  write_record = λ dcname name bytes s. (ok tt, (name, bytes) ∷ s);
}

abbrev pub number_env : Env Store
number_env = record toy_env { ssl = number_ssl; pb = field_protobuf; srv = number_server }

abbrev pub names_given : Store → List Bytes
names_given = map (λ p. p.0)

number_server-IsServer : IsServer number_server
unfolding find
number_server-IsServer = record {
  read-write = λ dcname name bytes room s t e l. ground (arith, bytes_eq_refl name);
  read-write_ne = λ dcname name bytes other room s t e n. ground (arith, bytes_eq_iff name other);
}

number_env-IsProtobuf : IsProtobuf number_env.pb
number_env-IsProtobuf = record { parse-to_array = field_protobuf-IsProtobuf.parse-to_array }

some-length : (a d : Bytes) → some (checksum a ∷ replicate 31 0) ≡ some d → length d ≡ 32
some-length a d e = let is : (checksum a ∷ replicate 31 0) ≡ d = cc in ap length (sym is)

pub number_ssl-IsDigest : IsDigest number_ssl
unfolding hash256
number_ssl-IsDigest = record { sizes = λ a d e. some-length a d e }

number_env-IsLogged : IsLogged number_env names_given
number_env-IsLogged = record {
  server = number_server-IsServer;
  digest = number_ssl-IsDigest;
  logs = λ dcname name bytes s. refl;
}

total_few :
    (xs : List Bytes) → length xs ≤ 2 → ((i : ℕ) → length (get_or xs i []) ≤ 32) → total xs ≤ 66
total_few [] l k = omega arith
total_few (a ∷ []) l k = omega (arith, k 0)
total_few (a ∷ b ∷ []) l k = omega (arith, k 0, k 1)
total_few (a ∷ b ∷ c ∷ xs) l k = absurd (omega arith)

written_frames :
    (p : Pdu) → IsFramed [] p → length (written p) ≤ length p.payload_in_transit + header_room
written_frames p s = omega (
  arith,
  length-fields (parts p),
  total_few p.header.prevhash s.few s.names,
  s.hash,
  s.msgtype,
  ap length s.replyaddr,
  s.header_hash,
  ap length s.signature,
)

pub number_env-IsStoring : IsStoring number_env names_given
number_env-IsStoring = record {
  logged = number_env-IsLogged;
  protobuf = number_env-IsProtobuf;
  frames = written_frames;
}

pub number_env-IsReadable : IsReadable number_env
unfolding hash256 encrypt_symmetric
number_env-IsReadable = record {
  server = number_server-IsServer;
  protobuf = number_env-IsProtobuf;
  cipher = number_ssl-IsCipher;
  signer = number_ssl-IsSigner;
  digest = λ d h e. omega (arith, some-length d h e);
  seals = λ plain. refl;
  fits = written_fits;
}

-- A test for names that differ.
abbrev listed : Bytes → List Bytes → Bool
listed x [] = false
listed x (y ∷ ys) = if bytes_eq x y then true else listed x ys

abbrev pub all_different : List Bytes → Bool
all_different [] = true
all_different (x ∷ xs) = if listed x xs then false else all_different xs

listed-Has : (x : Bytes) (ys : List Bytes) → listed x ys ≡ false → Has x ys → ⊥
listed-Has x [] e h = h
listed-Has x (y ∷ ys) e (inl same) =
    let t : bytes_eq x y ≡ true = ap (bytes_eq x) (sym same) ∙ bytes_eq_refl x in
    let no : true ≡ false = rw t at e in cc
listed-Has x (y ∷ ys) e (inr h) = elim (Bool-cases (bytes_eq x y)) [
  | inl t ↦ let no : true ≡ false = rw t at e in cc
  | inr f ↦ listed-Has x ys (rw f at e) h
]

pub all_different-AllDifferent : (xs : List Bytes) → all_different xs ≡ true → AllDifferent xs
all_different-AllDifferent [] e = tt
all_different-AllDifferent (x ∷ xs) e = elim (Bool-cases (listed x xs)) [
  | inl t ↦ let no : false ≡ true = rw t at e in cc
  | inr f ↦ (listed-Has x xs f, all_different-AllDifferent xs (rw f at e))
]
