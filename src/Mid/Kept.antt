-- ===== src/Mid/Kept.antt =====
-- Records on the server stay what they are, as long as no other record comes under the name of one that
-- is there.
pub mod Blocks
pub mod Names
use dcfs_client.Base.{
  ℕ, ◌≤◌, ◌≡◌, refl, sym, ap, ◌∙◌, some, List, [], ◌∷◌, Bytes, length, Outcome, ok, subst, ◌⊎◌, inl,
  inr,
}
use dcfs_client.Crypto.{hash256}
use dcfs_client.Crypto.Laws.{IsDigest}
use dcfs_client.Capsule.{RecordType, Header, IsServer}
use dcfs_client.Mid.{Env, Mid, compose_header, compose_pdu}
use dcfs_client.Mid.Modify.{push_record}
use dcfs_client.Mid.Written.{IsWritten, push_record-sent}

abbrev pub Has : Bytes → List Bytes → Type 0
Has x [] = ⊥
Has x (y ∷ ys) = (x ≡ y) ⊎ Has x ys

-- No two are the same.
abbrev pub AllDifferent : List Bytes → Type 0
AllDifferent [] = Unit {0}
AllDifferent (x ∷ xs) = (Has x xs → ⊥) × AllDifferent xs

module _ {S : Type 0} (env : Env S) where
  abbrev pub record_bytes : Header → Bytes → Bytes → Bytes
  record_bytes header name payload =
      env.pb.pdu_to_array (compose_pdu env header name (some payload))

  -- The server gives the composed record for its name.
  pub record IsKept (dcname : Bytes) (type : RecordType) (hashes : List Bytes)
      (payload name : Bytes) (server : S) : Type 0 where
    pub hash : Bytes
    pub time : ℕ
    pub hashed : hash256 env.ssl payload ≡ some hash
    pub called :
        hash256 env.ssl (env.pb.header_to_array (compose_header env type hashes hash time))
        ≡ some name
    pub read :
        (room : ℕ)
        → length (record_bytes (compose_header env type hashes hash time) name payload) ≤ room
        → env.srv.read_record dcname name room server
          ≡ ok (record_bytes (compose_header env type hashes hash time) name payload)

module _ {S : Type 0} (env : Env S) (log : S → List Bytes) where
  -- The server keeps what it is given, and `log` tells of its state under which names records came, the
  -- last one first. It is a name for the past of the server, which no program reads.
  pub record IsLogged : Type 0 where
    pub server : IsServer env.srv
    pub digest : IsDigest env.ssl
    pub logs :
        (dcname name bytes : Bytes) (s : S)
        → log (env.srv.write_record dcname name bytes s).1 ≡ name ∷ log s

  -- The record was composed and written, and is there if no two records came under one name.
  pub record WasKept (dcname : Bytes) (type : RecordType) (hashes : List Bytes)
      (payload name : Bytes) (server : S) : Type 0 where
    pub hash : Bytes
    pub time : ℕ
    pub hashed : hash256 env.ssl payload ≡ some hash
    pub called :
        hash256 env.ssl (env.pb.header_to_array (compose_header env type hashes hash time))
        ≡ some name
    pub listed : Has name (log server)
    pub read :
        AllDifferent (log server)
        → (room : ℕ)
        → length (record_bytes env (compose_header env type hashes hash time) name payload) ≤ room
        → env.srv.read_record dcname name room server
          ≡ ok (record_bytes env (compose_header env type hashes hash time) name payload)

  pub WasKept-IsKept :
      (dcname : Bytes) (type : RecordType) (hashes : List Bytes) (payload name : Bytes) (s : S)
      → AllDifferent (log s)
      → WasKept dcname type hashes payload name s
      → IsKept env dcname type hashes payload name s
  WasKept-IsKept dcname type hashes payload name s different k = record {
    hash = k.hash;
    time = k.time;
    hashed = k.hashed;
    called = k.called;
    read = k.read different;
  }

module _ {S : Type 0} (env : Env S) (log : S → List Bytes) (ax : IsLogged env log) where
  log-IsWritten :
      (dcname : Bytes) (type : RecordType) (hashes : List Bytes) (payload name : Bytes) (t : S)
      (w : IsWritten env dcname type hashes payload name t)
      → log t ≡ name ∷ log w.before
  log-IsWritten dcname type hashes payload name t w =
      sym (ap (λ (z : Outcome (Unit {0}) × S). log z.1) w.sent) ∙ ax.logs dcname name _ w.before

  written-WasKept :
      (dcname : Bytes) (type : RecordType) (hashes : List Bytes) (payload name : Bytes) (t : S)
      → IsWritten env dcname type hashes payload name t
      → WasKept env log dcname type hashes payload name t
  written-WasKept dcname type hashes payload name t w = record {
    hash = w.hash;
    time = w.time;
    hashed = w.hashed;
    called = w.called;
    listed = subst (Has name) (sym (log-IsWritten dcname type hashes payload name t w)) (inl refl);
    read = λ different room l. ax.server.read-write dcname name _ room w.before t w.sent l;
  }

  -- A record is still there when another has come under a new name.
  WasKept-written :
      (dcname : Bytes) (type type' : RecordType) (hashes hashes' : List Bytes)
      (payload payload' name name' : Bytes) (s t : S)
      → WasKept env log dcname type hashes payload name s
      → (w : IsWritten env dcname type' hashes' payload' name' t) → w.before ≡ s
      → WasKept env log dcname type hashes payload name t
  WasKept-written dcname type type' hashes hashes' payload payload' name name' s t k w b =
      let grown : log t ≡ name' ∷ log s =
        log-IsWritten dcname type' hashes' payload' name' t w ∙ ap (λ (v : S). name' ∷ log v) b in
      record {
        hash = k.hash;
        time = k.time;
        hashed = k.hashed;
        called = k.called;
        listed = subst (Has name) (sym grown) (inr k.listed);
        read = λ different room l.
            let (new, rest) = subst AllDifferent grown different in
            ax.server.read-write_ne dcname name' _ name room w.before t w.sent
              (λ e. new (subst (λ (x : Bytes). Has x (log s)) (sym e) k.listed))
            ∙ ap (env.srv.read_record dcname name room) b
            ∙ k.read rest room l;
      }

  pub push_record-WasKept :
      (dcname : Bytes) (type : RecordType) (hashes : List Bytes) (payload name : Bytes)
      (s t : Mid S)
      → push_record env dcname type hashes payload s ≡ (ok name, t)
      → WasKept env log dcname type hashes payload name t.server
  push_record-WasKept dcname type hashes payload name s t e =
      let (w, _) = push_record-sent env dcname type hashes payload name s t e in
      written-WasKept dcname type hashes payload name t.server w

  pub WasKept-push_record :
      (dcname : Bytes) (type type' : RecordType) (hashes hashes' : List Bytes)
      (payload payload' name name' : Bytes) (s t : Mid S)
      → push_record env dcname type' hashes' payload' s ≡ (ok name', t)
      → WasKept env log dcname type hashes payload name s.server
      → WasKept env log dcname type hashes payload name t.server
  WasKept-push_record dcname type type' hashes hashes' payload payload' name name' s t e k =
      let (w, b) = push_record-sent env dcname type' hashes' payload' name' s t e in
      WasKept-written dcname type type' hashes hashes' payload payload' name name' s.server t.server
        k w b
