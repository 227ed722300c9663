-- ===== src/Backend/Stored.antt =====
-- What a fresh cache of a file loads from the server: its block map, and the blocks behind it.
use dcfs_client.Base.{
  Bool-cases, inl, inr, ℕ, zero, suc, length-append, ◌+◌, ◌*◌, ◌≤◌, ◌<◌, ◌≡◌, refl, sym, ap, ap₂,
  ◌∙◌, true, false, none, some, List, [], ◌∷◌, ◌++◌, Bytes, length, ascii, Memory, memcpy, clear,
  of_bytes, bytes_at, get_or, get_or-bytes_at, ok, arith, ltb, leb, ◌==◌, if◌then◌else◌,
}
use dcfs_client.Crypto.{decrypt_symmetric}
use dcfs_client.Capsule.{
  Pdu, IsProtobuf, RecordType, record_type_to_string, meta, directory, inode, blockmap, datablock,
}
use dcfs_client.Cache.{Host, hashlen, aes_pad_len, bm_check, backed, fill_bmcache, new_cache}
use dcfs_client.Cache.View.{on_backend}
use dcfs_client.Cache.BlockMap.{bm_check_first_byte}
use dcfs_client.Mid.{Env, Mid, compose_header, compose_pdu}
use dcfs_client.Mid.Kept.{IsLogged, IsKept}
use dcfs_client.Mid.Payload.{join_hashes}
use dcfs_client.Mid.Kept.Names.{length-join_hashes, bytes_at-join_hashes}
use dcfs_client.Backend.{header_room, read_record_data, fitting}
use dcfs_client.Backend.Serving.{backend_reader}

-- A record whose fields but the payload are as short as the program makes them: two names at most.
pub record IsFramed (client_ip : Bytes) (p : Pdu) : Type 0 where
  pub few : length p.header.prevhash ≤ 2
  pub names : (i : ℕ) → length (get_or p.header.prevhash i []) ≤ 32
  pub hash : length p.header.hash ≤ 32
  pub sender : p.header.sender ≡ 0
  pub msgtype : length p.header.msgtype ≤ 9
  pub replyaddr : p.header.replyaddr ≡ client_ip ++ ascii ":5001"
  pub header_hash : length p.header_hash ≤ 32
  pub signature : p.signature ≡ ascii "0"

-- What a reader of blocks relies on: the server and the digests, the protocol buffers, and that these
-- take no more than the room that `ReadRecordData` leaves for them.
pub record IsStoring {S : Type 0} (env : Env S) (log : S → List Bytes) : Type 0 where
  pub logged : IsLogged env log
  pub protobuf : IsProtobuf env.pb
  pub frames :
      (p : Pdu)
      → IsFramed env.client_ip p
      → length (env.pb.pdu_to_array p) ≤ length p.payload_in_transit + header_room

short_type : (type : RecordType) → length (record_type_to_string type) ≤ 9
unfolding record_type_to_string
short_type meta = omega arith
short_type directory = omega arith
short_type inode = omega arith
short_type blockmap = omega arith
short_type datablock = omega arith

two_short :
    (a b : Bytes) (n : ℕ)
    → length a ≤ n
    → length b ≤ n
    → (i : ℕ) → length (get_or (a ∷ b ∷ []) i []) ≤ n
two_short a b n k l zero = k
two_short a b n k l (suc zero) = l
two_short a b n k l (suc (suc i)) = omega arith

one_short : (a : Bytes) (n : ℕ) → length a ≤ n → (i : ℕ) → length (get_or (a ∷ []) i []) ≤ n
one_short a n k zero = k
one_short a n k (suc i) = omega arith

bytes_at-memcpy :
    (dst src : Memory) (n s k : ℕ)
    → s + k ≤ n
    → bytes_at (memcpy dst 0 src 0 n) s k ≡ bytes_at src s k
unfolding memcpy bytes_at
bytes_at-memcpy dst src n s zero h = refl
bytes_at-memcpy dst src n s (suc k) h =
    ap₂ ◌∷◌ (ground arith) (bytes_at-memcpy dst src n (s + 1) k (omega arith))

-- `bm_` after a block map record with that payload was read.
abbrev pub loaded_map : Host → Memory → Bytes → Memory
loaded_map h junk payload =
    memcpy (clear junk (hashlen * h.bm_cover)) 0 (of_bytes payload) 0 (length payload)

module _ {S : Type 0} (env : Env S) (log : S → List Bytes) (ax : IsStoring env log) where
  -- `ReadRecordData` gives the payload of a record that is kept.
  pub read_record_data-IsKept :
      (dcname : Bytes) (type : RecordType) (hashes : List Bytes) (payload name : Bytes) (room : ℕ)
      (m : Mid S)
      → IsKept env dcname type hashes payload name m.server
      → length hashes ≤ 2
      → ((i : ℕ) → length (get_or hashes i []) ≤ 32)
      → length payload ≤ room
      → read_record_data env dcname name room m ≡ ok payload
  unfolding read_record_data fitting
  read_record_data-IsKept dcname type hashes payload name room m k few names l =
      let p = compose_pdu env (compose_header env type hashes k.hash k.time) name (some payload) in
      let hash_size : length k.hash ≤ 32 =
        omega (arith, ax.logged.digest.sizes payload k.hash k.hashed) in
      let name_size : length name ≤ 32 = omega (arith, ax.logged.digest.sizes _ name k.called) in
      let framed : IsFramed env.client_ip p = record {
        few = few;
        names = names;
        hash = hash_size;
        sender = refl;
        msgtype = short_type type;
        replyaddr = refl;
        header_hash = name_size;
        signature = refl;
      } in
      let fits = ax.frames p framed in
      let r = k.read (room + header_room) (omega (arith, fits, l)) in
      let t : ltb room (length payload) ≡ false = ground arith in
      let parsed : (env.pb.parse_from_array (env.pb.pdu_to_array p)).payload_in_transit ≡ payload =
        ap (λ (q : Pdu). q.payload_in_transit) (ax.protobuf.parse-to_array p) in
      rw (read_record_data, r, parsed, t) refl

  module _ (h : Host) (junk : Memory) (m : Mid S) where
    -- The block map of a fresh cache is the payload of its record.
    pub fill_bmcache-IsKept :
        (a b payload : Bytes)
        → IsKept env h.hashname blockmap (a ∷ b ∷ []) payload h.bm_recordname m.server
        → length a ≤ 32
        → length b ≤ 32
        → length payload ≤ hashlen * h.bm_cover
        → fill_bmcache h env.ssl (backend_reader env m) junk (new_cache h)
          ≡ (ok tt, record (new_cache h) { bm = some (loaded_map h junk payload) })
    unfolding fill_bmcache new_cache
    fill_bmcache-IsKept a b payload k la lb l =
        let t : ltb 0 (length h.bm_recordname) ≡ true =
          ground (arith, ax.logged.digest.sizes _ h.bm_recordname k.called) in
        let r =
          read_record_data-IsKept h.hashname blockmap (a ∷ b ∷ []) payload h.bm_recordname
            (hashlen * h.bm_cover) m k (omega arith) (two_short a b 32 la lb) l in
        rw (t, r) refl

    -- Which record a loaded block map has for a block.
    pub bm_check-name :
        (before after : List Bytes) (name : Bytes)
        → length name ≡ hashlen
        → length before < h.bm_cover
        → bm_check h env.ssl
            (backend_reader env m)
            junk
            (some (loaded_map h junk (join_hashes (before ++ name ∷ after))))
            (length before)
          ≡ (if get_or name 0 0 == 0 then none else some name)
    bm_check-name before after name size within =
        let payload = join_hashes (before ++ name ∷ after) in
        let i = length before * hashlen in
        let map = loaded_map h junk payload in
        let all : length payload ≡ (length before + suc (length after)) * hashlen = omega (
          arith,
          length-join_hashes (before ++ name ∷ after),
          length-append before (name ∷ after),
        ) in
        let whole : bytes_at map i hashlen ≡ name =
          bytes_at-memcpy (clear junk (hashlen * h.bm_cover)) (of_bytes payload) (length payload) i
            hashlen (omega (arith, all))
          ∙ bytes_at-join_hashes before name after size in
        let first : map i ≡ get_or name 0 0 =
          ap map (omega arith)
          ∙ sym (get_or-bytes_at map i hashlen 0 (omega arith))
          ∙ ap (λ (b : Bytes). get_or b 0 0) whole in
        bm_check_first_byte h env.ssl (backend_reader env m) junk map (length before)
        ∙ ground (arith, whole, first)

    -- A block that the block map names can be loaded.
    pub backed-ok :
        (name prev buf : Bytes)
        → IsKept env h.hashname datablock (prev ∷ []) buf name m.server
        → length prev ≤ 32
        → length buf ≤ h.block_size + aes_pad_len
        → (x : Memory) × (backed h env.ssl (backend_reader env m) junk (some name) ≡ ok x)
    unfolding backed
    backed-ok name prev buf k short room =
        let r =
          read_record_data-IsKept h.hashname datablock (prev ∷ []) buf name
            (h.block_size + aes_pad_len) m k (omega arith) (one_short prev 32 short) room in
        let t : leb (length buf) (h.block_size + aes_pad_len) ≡ true = ground arith in
        let plain = (decrypt_symmetric env.ssl h.aes_key none buf 0).out in
        (memcpy junk 0 (of_bytes plain) 0 (length plain), rw (r, t) refl)

    -- Behind the names a loaded block map has no block.
    pub bm_check-behind :
        (payload : Bytes) (i : ℕ)
        → length payload ≤ i * hashlen
        → bm_check h env.ssl (backend_reader env m) junk (some (loaded_map h junk payload)) i ≡ none
    unfolding memcpy clear
    bm_check-behind payload i l =
        let map = loaded_map h junk payload in
        bm_check_first_byte h env.ssl (backend_reader env m) junk map i
        ∙ elim (Bool-cases (ltb i h.bm_cover)) [
          | inr f ↦ ground (arith, f)
          | inl t ↦
              let zero_there : map (i * hashlen) ≡ 0 = ground (arith, t) in
              ground (arith, zero_there)
        ]

    -- A block that the block map names is the decrypted payload of its record.
    pub backed-IsKept :
        (name prev buf : Bytes) (o : ℕ)
        → IsKept env h.hashname datablock (prev ∷ []) buf name m.server
        → length prev ≤ 32
        → length buf ≤ h.block_size + aes_pad_len
        → o < length (decrypt_symmetric env.ssl h.aes_key none buf 0).out
        → on_backend h env.ssl
            (backend_reader env m)
            junk
            (backed h env.ssl (backend_reader env m) junk (some name))
            o
          ≡ get_or (decrypt_symmetric env.ssl h.aes_key none buf 0).out o 0
    unfolding backed memcpy of_bytes
    backed-IsKept name prev buf o k short room within =
        let r =
          read_record_data-IsKept h.hashname datablock (prev ∷ []) buf name
            (h.block_size + aes_pad_len) m k (omega arith) (one_short prev 32 short) room in
        let t : leb (length buf) (h.block_size + aes_pad_len) ≡ true = ground arith in
        rw (r, t) (ground arith)
