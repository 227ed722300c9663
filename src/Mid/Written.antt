-- ===== src/Mid/Written.antt =====
-- A record that the middleware composed and wrote.
use dcfs_client.Base.{
  ℕ, ◌≡◌, refl, sym, ap, ◌∙◌, some, List, Bytes, Outcome, ok, err, fault, err_hash, continue, pure,
  ◌>>◌, arith, Option-cases, inl, inr,
}
use dcfs_client.Crypto.{hash256}
use dcfs_client.Capsule.{RecordType}
use dcfs_client.Mid.{
  Env, Mid, compose_header, compose_pdu, compose_record, payload_hash, tick, put_record,
}
use dcfs_client.Mid.Modify.{push_record}

module _ {S : Type 0} (env : Env S) where
  -- A record that was composed and written.
  pub record IsWritten (dcname : Bytes) (type : RecordType) (hashes : List Bytes)
      (payload name : Bytes) (server : S) : Type 0 where
    pub hash : Bytes
    pub time : ℕ
    pub before : S
    pub hashed : hash256 env.ssl payload ≡ some hash
    pub called :
        hash256 env.ssl (env.pb.header_to_array (compose_header env type hashes hash time))
        ≡ some name
    pub sent :
        env.srv.write_record dcname name
          (env.pb.pdu_to_array
            (compose_pdu env (compose_header env type hashes hash time) name (some payload)))
          before
        ≡ (ok tt, server)

  put_record-sent :
      (dcname nm name bytes : Bytes) (s t : Mid S)
      → (put_record env dcname nm bytes >> pure nm) s ≡ (ok name, t)
      → (nm ≡ name) × (env.srv.write_record dcname nm bytes s.server ≡ (ok tt, t.server))
  unfolding put_record
  put_record-sent dcname nm name bytes s t e =
      by_result (env.srv.write_record dcname nm bytes s.server) refl e
    where
      by_result :
          (x : Outcome (Unit {0}) × S)
          → env.srv.write_record dcname nm bytes s.server ≡ x
          → continue x.0 (λ _. pure nm) (record s { server = x.1 }) ≡ (ok name, t)
          → (nm ≡ name) × (env.srv.write_record dcname nm bytes s.server ≡ (ok tt, t.server))
      by_result (ok u, v) w f =
          (ground arith, w ∙ ap (λ (z : Outcome Bytes × Mid S). (ok tt, z.1.server)) f)
      by_result (err x, v) w f =
          let no : err x ≡ ok name = ap (λ (z : Outcome Bytes × Mid S). z.0) f in cc
      by_result (fault, v) w f =
          let no : fault ≡ ok name = ap (λ (z : Outcome Bytes × Mid S). z.0) f in cc

  -- What was written, and the server's state before.
  pub push_record-sent :
      (dcname : Bytes) (type : RecordType) (hashes : List Bytes) (payload name : Bytes)
      (s t : Mid S)
      → push_record env dcname type hashes payload s ≡ (ok name, t)
      → (w : IsWritten dcname type hashes payload name t.server) × (w.before ≡ s.server)
  unfolding push_record compose_record put_record payload_hash tick
  push_record-sent dcname type hashes payload name s t e =
      elim (Option-cases (hash256 env.ssl payload)) [
        | inl n ↦
            let f = rw (push_record, compose_record, payload_hash, n) at e in
            let no : err err_hash ≡ ok name = ap (λ (z : Outcome Bytes × Mid S). z.0) f in cc
        | inr (h, q) ↦
            let header = compose_header env type hashes h (env.now s.ticks) in
            elim (Option-cases (hash256 env.ssl (env.pb.header_to_array header))) [
              | inl n ↦
                  let f = rw (push_record, compose_record, payload_hash, q, n) at e in
                  let no : err err_hash ≡ ok name = ap (λ (z : Outcome Bytes × Mid S). z.0) f in cc
              | inr (nm, c) ↦
                  let f = rw (push_record, compose_record, payload_hash, q, c) at e in
                  let (is, w) = put_record-sent dcname nm name _ _ t f in
                  let sent =
                    ap
                      (λ (b : Bytes).
                        env.srv.write_record dcname b
                          (env.pb.pdu_to_array (compose_pdu env header b (some payload))) s.server)
                      (sym is)
                    ∙ w in
                  (
                    record {
                      hash = h;
                      time = env.now s.ticks;
                      before = s.server;
                      hashed = q;
                      called = c ∙ ap (λ (b : Bytes). some b) is;
                      sent = sent;
                    },
                    refl,
                  )
            ]
      ]

  pub push_record-IsWritten :
      (dcname : Bytes) (type : RecordType) (hashes : List Bytes) (payload name : Bytes)
      (s t : Mid S)
      → push_record env dcname type hashes payload s ≡ (ok name, t)
      → IsWritten dcname type hashes payload name t.server
  push_record-IsWritten dcname type hashes payload name s t e =
      let (w, _) = push_record-sent dcname type hashes payload name s t e in w
