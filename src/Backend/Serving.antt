-- ===== src/Backend/Serving.antt =====
-- `StorageBackend` as what the caches of inodes read from and flush to.
use dcfs_client.Base.{
  ℕ, ◌+◌, ◌≤◌, ◌≡◌, refl, ap, false, Bytes, length, Outcome, ok, err, fault, arith, ltb, Bool-cases,
  inl, inr, ◌⊎◌, Err, err_buf_too_small, ok-injective,
}
use dcfs_client.Cache.{Reader}
use dcfs_client.Cache.View.{IsServing}
use dcfs_client.Cache.Flush.{Writer}
use dcfs_client.Mid.{Env, Mid}
use dcfs_client.Backend.{header_room, fitting, read_record_data, write_record}

Outcome-cases :
    (r : Outcome Bytes) → ((b : Bytes) × (r ≡ ok b)) ⊎ ((e : Err) × (r ≡ err e)) ⊎ (r ≡ fault)
Outcome-cases (ok b) = inl (b, refl)
Outcome-cases (err e) = inr (inl (e, refl))
Outcome-cases fault = inr (inr refl)

ltb-le : (a b : ℕ) → ltb a b ≡ false → b ≤ a
ltb-le a b h = ground arith

module _ {S : Type 0} (env : Env S) where
  -- `host_->Backend()->ReadRecordData`, in a state of the middleware and its server.
  abbrev pub backend_reader : Mid S → Reader
  backend_reader m dcname recordname room = read_record_data env dcname recordname room m

  -- `host_->Backend()->WriteRecord`
  abbrev pub backend_writer : Writer (Mid S)
  backend_writer = write_record env

  -- `ReadRecordData` meets what the caches assume of it: where the server has every record, with a
  -- payload of at most `room` bytes, each is read, and the room given to the cache holds it.
  backend_reader-IsServing :
      (m : Mid S)
      → ((dcname recordname : Bytes) (room : ℕ)
          → (bytes : Bytes) × (env.srv.read_record dcname recordname (room + header_room) m.server
              ≡ ok bytes)
            × (length (env.pb.parse_from_array bytes).payload_in_transit ≤ room))
      → IsServing (backend_reader m)
  unfolding read_record_data fitting
  backend_reader-IsServing m h dcname recordname room =
      let (bytes, is, l) = h dcname recordname room in
      let t : ltb room (length (env.pb.parse_from_array bytes).payload_in_transit) ≡ false =
        ground arith in
      ((env.pb.parse_from_array bytes).payload_in_transit, rw (read_record_data, is, t) refl, l)

  fitting-fits :
      (room : ℕ) (p payload : Bytes)
      → fitting env room p ≡ ok payload
      → (length payload ≤ room) × (p ≡ payload)
  unfolding fitting
  fitting-fits room p payload e = elim (Bool-cases (ltb room (length p))) [
    | inl t ↦ let k : err err_buf_too_small ≡ ok payload = rw t at e in cc
    | inr t ↦
        let k : ok p ≡ ok payload = rw t at e in
        let same : p ≡ payload = ok-injective k in
        (omega (arith, ltb-le room (length p) t, ap length same), same)
  ]

  -- Whatever the server answers, the payload that `ReadRecordData` returns has at most `room` bytes,
  -- and is that of the record which the server returned.
  pub read_record_data_fits :
      (dcname recordname : Bytes) (room : ℕ) (m : Mid S) (payload : Bytes)
      → read_record_data env dcname recordname room m ≡ ok payload
      → (length payload ≤ room)
        × (bytes : Bytes) × (env.srv.read_record dcname recordname (room + header_room) m.server
            ≡ ok bytes)
        × ((env.pb.parse_from_array bytes).payload_in_transit ≡ payload)
  unfolding read_record_data
  read_record_data_fits dcname recordname room m payload e =
      elim (Outcome-cases (env.srv.read_record dcname recordname (room + header_room) m.server)) [
        | inl (bytes, q) ↦
            let f : fitting env room (env.pb.parse_from_array bytes).payload_in_transit
                ≡ ok payload =
              rw (read_record_data, q) at e in
            let (l, p) =
              fitting-fits room (env.pb.parse_from_array bytes).payload_in_transit payload f in
            (l, bytes, q, p)
        | inr (inl (x, q)) ↦ let k : err x ≡ ok payload = rw (read_record_data, q) at e in cc
        | inr (inr q) ↦ let k : fault ≡ ok payload = rw (read_record_data, q) at e in cc
      ]
