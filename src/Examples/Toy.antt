-- ===== src/Examples/Toy.antt =====
-- Stand-ins for OpenSSL, the protocol buffers and the server, to run the program on: a cipher that
-- puts 16 bytes before the text, signatures that are the text, and a server that is a list.
use dcfs_client.Base.{
  ℕ, zero, suc, ◌+◌, ◌≡◌, refl, ap, ◌∙◌, sym, true, false, Option, none, some, List, [], ◌∷◌, ◌++◌,
  Bytes, drop, replicate, bytes_eq, bytes_eq_refl, of_bytes, bytes_at, Memory, Outcome, ok, err,
  err_not_found, arith,
}
use mathlib.Core.List.{append-nil}
use dcfs_client.Crypto.{OpenSsl}
use dcfs_client.Crypto.Laws.{IsCipher, IsSigner}
use dcfs_client.Capsule.{Protobuf, Server}
use dcfs_client.Cache.{Host, Cache, Reader}
use dcfs_client.Cache.View.{IsValid, IsServing}
use dcfs_client.Mid.{Env, Mid, find, assign}
use dcfs_client.Inode.{Inode}

abbrev pub toy_ssl : OpenSsl
toy_ssl = record {
  sha256_init = true;
  sha256_update = λ d. true;
  sha256_final = λ d. some (bytes_at (of_bytes d) 0 32);
  ecdsa_sign = λ k d. some d;
  ecdsa_verify = λ k d s. bytes_eq d s;
  decrypt_init = λ k iv. true;
  cipher_update =
      λ enc key iv d. elim enc [ true ↦ some (replicate 16 0) | false ↦ some (drop 16 d) ];
  cipher_final = λ enc key iv d. elim enc [ true ↦ some d | false ↦ some [] ];
}

some-injective : {A : Type 0} {a b : A} → some a ≡ some b → a ≡ b
some-injective e = cc

pub toy_ssl-IsCipher : IsCipher toy_ssl
toy_ssl-IsCipher = record {
  ready = λ key iv. refl;
  round_trip = λ key iv plain first last u f. (
    drop 16 (first ++ last),
    [],
    refl,
    refl,
    append-nil (drop 16 (first ++ last))
        ∙ ap (λ (x : Bytes). drop 16 (x ++ last)) (sym (some-injective u))
        ∙ sym (some-injective f),
  );
}

pub toy_ssl-IsSigner : IsSigner toy_ssl
toy_ssl-IsSigner = record {
  sign_verify = λ k d s e. ap (bytes_eq d) (sym (some-injective e)) ∙ bytes_eq_refl d;
}

-- Every record is there, and empty.
abbrev pub toy_reader : Reader
toy_reader dcname recordname room = ok []

pub toy_reader-IsServing : IsServing toy_reader
toy_reader-IsServing dcname recordname room = ([], refl, omega arith)

-- Files of blocks of 4 bytes; the file has 10 of them, and the first block is cached and dirty.
abbrev pub toy_host : Host
toy_host = record {
  hashname = 7 ∷ [];
  ino_recordname = [];
  size = 10;
  block_size = 4;
  bm_cover = 512;
  bm_recordname = [];
  aes_key = replicate 16 9;
}

abbrev pub toy_cache : Cache
toy_cache = record {
  count = 3;
  cached = λ i. elim i [ zero ↦ true | suc _ ↦ false ];
  dirty = λ i. elim i [ zero ↦ true | suc _ ↦ false ];
  blocks = λ i. elim i [ zero ↦ some (λ o. o + 20) | suc _ ↦ none ];
  bm = none;
}

pub toy_cache-IsValid : IsValid toy_cache
toy_cache-IsValid zero e = (omega arith, refl)
toy_cache-IsValid (suc i) e = cc

pub toy_dirty-cached : (i : ℕ) → toy_cache.dirty i ≡ true → toy_cache.cached i ≡ true
toy_dirty-cached i e = e

abbrev pub toy_inode : Inode
toy_inode = record { host = toy_host; cache = toy_cache; ref_count = 1 }

abbrev pub blank : Memory
blank i = 0

abbrev pub counting : Memory
counting i = i + 1

abbrev pub toy_protobuf : Protobuf
toy_protobuf = record {
  header_to_array = λ h. h.hash;
  pdu_to_array = λ p. p.payload_in_transit;
  parse_from_array = λ bytes. record {
    header = record {
      sender = 0;
      prevhash = (1 ∷ []) ∷ (2 ∷ []) ∷ [];
      hash = [];
      timestamp = 0;
      msgtype = [];
      replyaddr = [];
    };
    header_hash = [];
    signature = [];
    payload_in_transit = bytes;
  };
}

-- All capsules together: each record under its name.
abbrev pub Store : Type 0
Store = List (Bytes × Bytes)

abbrev pub or_missing : Option Bytes → Outcome Bytes
or_missing none = err err_not_found
or_missing (some b) = ok b

abbrev pub toy_server : Server Store
toy_server = record {
  read_record = λ dcname name room s. or_missing (find name s);
  write_record = λ dcname name bytes s. (ok tt, assign name bytes s);
}

abbrev pub toy_env : Env Store
toy_env = record {
  ssl = toy_ssl;
  pb = toy_protobuf;
  srv = toy_server;
  client_key = some 5;
  middleware_key = replicate 16 3;
  client_ip = [];
  now = λ k. k;
  fresh_key = λ k. replicate 16 k;
}

-- One capsule that has no version yet.
abbrev pub toy_mid : Mid Store
toy_mid = record {
  index = (7 ∷ [], []) ∷ [];
  root = ([], []);
  server = (4 ∷ [], 6 ∷ []) ∷ (2 ∷ [], replicate 32 8) ∷ [];
  ticks = 0;
  keys = 0;
}
