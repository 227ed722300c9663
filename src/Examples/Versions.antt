-- ===== src/Examples/Versions.antt =====
-- The theorem on the first version of a file, with messages whose fields are written one after the other,
-- each behind its length.
use dcfs_client.Base.{
  ℕ, zero, suc, ◌+◌, ◌*◌, ◌≤◌, ◌≡◌, ◌≢◌, refl, sym, ap, ap₂, ◌∙◌, some, List, [], ◌∷◌, ◌++◌, Bytes,
  length, length-append, take, drop, take-append_self, drop-append_self, replicate, of_bytes,
  bytes_at, length-bytes_at, bytes_eq, bytes_eq_iff, bytes_eq_refl, arith, Outcome, ok,
  if◌then◌else◌, Bool-cases, inl, inr,
}
use dcfs_client.Crypto.{hash256, sign, encrypt_symmetric}
use dcfs_client.Capsule.{Pdu, Protobuf, IsProtobuf, IsServer, blockmap}
use dcfs_client.Cache.{BufDesc}
use dcfs_client.Mid.{Env, Mid, find, assign, touch, latest, compose_record, put_record}
use dcfs_client.Mid.Index.{find-assign}
use dcfs_client.Mid.Modify.{
  modify_latest, push_version, current_records, push_blocks, push_record, push_blockmap, last_name,
  push_inode,
}
use dcfs_client.Mid.Payload.{default_block_size}
use dcfs_client.Mid.Written.{IsWritten}
use dcfs_client.Backend.{FileMeta, read_file_meta, sign_args}
use dcfs_client.Backend.Meta.{IsSmall, IsReadable, modify-read_file_meta}
use dcfs_client.Examples.Toy.{
  Store, or_missing, toy_ssl-IsCipher, toy_ssl-IsSigner, toy_server, toy_env, toy_mid,
}

abbrev pub field : Bytes → Bytes → Bytes
field x rest = length x ∷ (x ++ rest)

abbrev pub text : Bytes → Bytes
text [] = []
text (n ∷ bytes) = take n bytes

abbrev pub behind : Bytes → Bytes
behind [] = []
behind (n ∷ bytes) = drop n bytes

abbrev pub fields : List Bytes → Bytes
fields [] = []
fields (x ∷ xs) = field x (fields xs)

abbrev pub texts : ℕ → Bytes → List Bytes
texts zero bytes = []
texts (suc n) bytes = text bytes ∷ texts n (behind bytes)

pub texts-fields : (xs : List Bytes) → texts (length xs) (fields xs) ≡ xs
texts-fields [] = refl
texts-fields (x ∷ xs) =
    ap₂ ◌∷◌ (take-append_self x (fields xs))
      (ap (texts (length xs)) (drop-append_self x (fields xs)) ∙ texts-fields xs)

-- The fields of a message, but for its two numbers and the number of its fields.
abbrev pub parts : Pdu → List Bytes
parts p =
    p.header.hash ∷ p.header.msgtype ∷ p.header.replyaddr ∷ p.header_hash ∷ p.signature
    ∷ p.payload_in_transit ∷ p.header.prevhash

abbrev pub written : Pdu → Bytes
written p = p.header.sender ∷ p.header.timestamp ∷ length (parts p) ∷ fields (parts p)

abbrev pub nth : List Bytes → ℕ → Bytes
nth [] i = []
nth (x ∷ xs) zero = x
nth (x ∷ xs) (suc i) = nth xs i

abbrev pub of_parts : ℕ → ℕ → List Bytes → Pdu
of_parts sender time xs = record {
  header = record {
    sender = sender;
    prevhash = drop 6 xs;
    hash = nth xs 0;
    timestamp = time;
    msgtype = nth xs 1;
    replyaddr = nth xs 2;
  };
  header_hash = nth xs 3;
  signature = nth xs 4;
  payload_in_transit = nth xs 5;
}

abbrev pub parsed : Bytes → Pdu
parsed [] = of_parts 0 0 []
parsed (s ∷ []) = of_parts s 0 []
parsed (s ∷ t ∷ []) = of_parts s t []
parsed (s ∷ t ∷ n ∷ bytes) = of_parts s t (texts n bytes)

abbrev pub field_protobuf : Protobuf
field_protobuf = record {
  header_to_array = λ h. h.hash;
  pdu_to_array = written;
  parse_from_array = parsed;
}

pub field_protobuf-IsProtobuf : IsProtobuf field_protobuf
field_protobuf-IsProtobuf = record {
  parse-to_array = λ p. ap (of_parts p.header.sender p.header.timestamp) (texts-fields (parts p));
}

pub toy_server-IsServer : IsServer toy_server
toy_server-IsServer = record {
  read-write = λ dcname name bytes room s t e l.
      (ap (λ (m : Store). or_missing (find name m)) (sym (state s t name bytes e))
        ∙ ap or_missing (find-assign name name bytes s ∙ here name bytes s));
  read-write_ne = λ dcname name bytes other room s t e n.
      (ap (λ (m : Store). or_missing (find other m)) (sym (state s t name bytes e))
        ∙ ap or_missing (find-assign name other bytes s ∙ elsewhere name other bytes s n));
}
  where
    state :
        (s t : Store) (name bytes : Bytes)
        → ◌≡◌ {A = Outcome (Unit {0}) × Store} (ok tt, assign name bytes s) (ok tt, t)
        → assign name bytes s ≡ t
    state s t name bytes e = ap (λ (x : Outcome (Unit {0}) × Store). x.1) e

    here :
        (name bytes : Bytes) (s : Store)
        → (if bytes_eq name name then some bytes else find name s) ≡ some bytes
    here name bytes s = rw (bytes_eq_refl name) refl

    elsewhere :
        (name other bytes : Bytes) (s : Store)
        → name ≢ other
        → (if bytes_eq name other then some bytes else find other s) ≡ find other s
    elsewhere name other bytes s n = elim (Bool-cases (bytes_eq name other)) [
      | inl t ↦ absurd (n ((bytes_eq_iff name other).0 t))
      | inr t ↦ rw t refl
    ]

abbrev pub total : List Bytes → ℕ
total [] = 0
total (x ∷ xs) = suc (length x) + total xs

pub length-fields : (xs : List Bytes) → length (fields xs) ≡ total xs
length-fields [] = refl
length-fields (x ∷ xs) = omega (arith, length-append x (fields xs), length-fields xs)

pub written_fits : (p : Pdu) → IsSmall [] p → length (written p) ≤ 1024
written_fits p s =
    let (a, b, e, l, k) = s.names in
    let two : total p.header.prevhash ≡ total (a ∷ b ∷ []) = ap total e in
    omega (
      arith,
      length-fields (parts p),
      two,
      l,
      k,
      s.hash,
      ap length s.msgtype,
      ap length s.replyaddr,
      s.header_hash,
      ap length s.signature,
      s.payload,
    )

digest_fits : (d h : Bytes) → some (bytes_at (of_bytes d) 0 32) ≡ some h → length h ≤ 32
digest_fits d h e =
    let is : bytes_at (of_bytes d) 0 32 ≡ h = cc in
    omega (arith, length-bytes_at (of_bytes d) 0 32, ap length is)

abbrev field_env : Env Store
field_env = record toy_env { pb = field_protobuf }

field_env-IsReadable : IsReadable field_env
unfolding hash256 encrypt_symmetric
field_env-IsReadable = record {
  server = toy_server-IsServer;
  protobuf = field_protobuf-IsProtobuf;
  cipher = toy_ssl-IsCipher;
  signer = toy_ssl-IsSigner;
  digest = digest_fits;
  seals = λ plain. refl;
  fits = written_fits;
}

abbrev pub key_16 : Bytes
key_16 = replicate 16 9

abbrev pub a_block : BufDesc
a_block = record { buf = 1 ∷ 2 ∷ []; file_offset = 0 }

abbrev versioned : Mid Store
versioned = (modify_latest field_env (7 ∷ []) (a_block ∷ []) [] key_16 toy_mid).1

no_versions : latest (7 ∷ []) toy_mid.index ≡ []
unfolding latest find bytes_eq
no_versions = refl

makes_version :
    modify_latest field_env (7 ∷ []) (a_block ∷ []) [] key_16 toy_mid ≡ (ok tt, versioned)
unfolding modify_latest bytes_eq latest find touch push_version current_records push_blocks
    push_record compose_record hash256 put_record push_blockmap last_name push_inode
    encrypt_symmetric bytes_at
makes_version = refl

signs_name : sign_args field_env (7 ∷ []) ≡ ok (bytes_at (of_bytes (7 ∷ [])) 0 32)
unfolding sign_args hash256 sign
signs_name = refl

modify-read_file_meta_example :
    (meta : FileMeta) × (read_file_meta field_env (7 ∷ []) versioned ≡ (ok meta, versioned))
    × (find (7 ∷ []) versioned.index ≡ some meta.recordname)
    × (meta.i_size ≡ 1 * default_block_size)
    × (meta.aes_key ≡ key_16)
    × (hashes : List Bytes) × (payload : Bytes) × (server : Store) × IsWritten field_env
        (7 ∷ [])
        blockmap
        hashes
        payload
        meta.blockmap_hash
        server
modify-read_file_meta_example =
    modify-read_file_meta field_env field_env-IsReadable (7 ∷ []) key_16
      (bytes_at (of_bytes (7 ∷ [])) 0 32) (a_block ∷ []) toy_mid versioned no_versions makes_version
      signs_name (omega arith) refl (omega arith)
