-- ===== src/DcClient.antt =====
-- dc-client/dc_client.hpp and dc_client.cpp, class DCClient: the puts and gets that wait for the
-- servers, and the handlers that the listening thread calls. A call that waits is two functions, up to
-- the wait and from it on. The maps are functions, `none` where a key is missing. The messages are
-- kept, newest first, as what is handed to `ClientComm`. The time stamps, which nothing reads, are left out.
pub mod Kept
pub mod Runs
pub mod Returns
use dcfs_client.Base.{
  ℕ, zero, suc, Bool, true, false, ◌&&◌, not, Option, none, some, List, [], ◌∷◌, Bytes, length,
  bytes_eq, ◌==◌, if◌then◌else◌, Outcome, ok, err, fault,
}
use dcfs_client.Capsule.{Pdu, Protobuf}

pub record PutStatus : Type 0 where
  pub done : Bool
  pub ret : ℕ

pub record GetStatus : Type 0 where
  pub done : Bool
  pub ret : ℕ
  pub srl_pdu : Option Bytes
  pub is_fresh_req : Bool
  pub is_metaonly_req : Bool

pub record DcGetOptions : Type 0 where
  pub is_fresh_req : Bool
  pub is_metaonly_req : Bool

-- ClientGetRequest, but for the address of this client.
pub record GetRequest : Type 0 where
  pub hash : Bytes
  pub fresh_req : Bool
  pub metaonly_req : Bool

pub record DcClient : Type 0 where
  pub put_status : Bytes → Option PutStatus
  pub get_status : Bytes → Bool → Option GetStatus
  pub puts : List Bytes
  pub gets : List GetRequest

abbrev pub same_flag : Bool → Bool → Bool
same_flag true b = b
same_flag false b = not b

abbrev pub set_put : Bytes → Option PutStatus → DcClient → DcClient
set_put hash p c = record c { put_status = λ k. if bytes_eq hash k then p else c.put_status k }

abbrev pub set_get : Bytes → Bool → GetStatus → DcClient → DcClient
set_get hash b g c = record c {
  get_status = λ k f. if bytes_eq hash k && same_flag b f then some g else c.get_status k f;
}

unfoldable pub new_client : DcClient
new_client = record { put_status = λ k. none; get_status = λ k f. none; puts = []; gets = [] }

-- `Put` up to its wait. Only a new entry is sent.
unfoldable pub put_call : Bytes → Bytes → DcClient → DcClient
put_call hash srl_pdu c = elim (c.put_status hash) [
  | some p ↦ c
  | none ↦ record (set_put hash (some (record { done = false; ret = 0 })) c) {
    puts = srl_pdu ∷ c.puts;
  }
]

-- `Put` from its wait on: `none` while it waits. A missing entry is a null pointer, dereferenced.
unfoldable pub put_return : Bytes → DcClient → Option (Outcome (Unit {0}) × DcClient)
put_return hash c = elim (c.put_status hash) [
  | none ↦ some (fault, c)
  | some p ↦ if p.done then some (ok tt, set_put hash none c) else none
]

-- `Get` up to its wait, after its assertions.
unfoldable pub get_call : Bytes → DcGetOptions → DcClient → Outcome (Unit {0}) × DcClient
get_call hash opt c =
    let entry : GetStatus = record {
      done = false;
      ret = 0;
      srl_pdu = none;
      is_fresh_req = opt.is_fresh_req;
      is_metaonly_req = opt.is_metaonly_req;
    } in
    let request : GetRequest = record {
      hash = hash;
      fresh_req = opt.is_fresh_req;
      metaonly_req = opt.is_metaonly_req;
    } in
    if opt.is_fresh_req && not (length hash == 0)
    then (fault, c)
    else if opt.is_fresh_req && opt.is_metaonly_req
    then (fault, c)
    else elim (c.get_status hash opt.is_metaonly_req) [
      | some g ↦ (ok tt, c)
      | none ↦
          (ok tt, record (set_get hash opt.is_metaonly_req entry c) { gets = request ∷ c.gets })
    ]

-- `Get` from its wait on: `none` while it waits. The entry stays.
unfoldable pub get_return : Bytes → Bool → DcClient → Option (Outcome (Option Bytes))
get_return hash is_metaonly_req c = elim (c.get_status hash is_metaonly_req) [
  | none ↦ some fault
  | some g ↦ if g.done then some (ok (if g.ret == 0 then g.srl_pdu else none)) else none
]

unfoldable pub commit_ack : Bytes → DcClient → Bool × DcClient
commit_ack hash c = elim (c.put_status hash) [
  | none ↦ (false, c)
  | some p ↦ (true, set_put hash (some (record { done = true; ret = 0 })) c)
]

-- What the two handlers of answers share: the entry is done, and holds the answer.
unfoldable pub answer : Bytes → Bool → Bytes → DcClient → Bool × DcClient
answer hash is_metaonly_req srl c = elim (c.get_status hash is_metaonly_req) [
  | none ↦ (false, c)
  | some g ↦
      (true, set_get hash is_metaonly_req (record g { done = true; ret = 0; srl_pdu = some srl }) c)
]

-- A record without payload counts as the answer to a request for the header only.
unfoldable pub commit_get_resp : Protobuf → Bytes → Pdu → DcClient → Bool × DcClient
commit_get_resp pb hash pdu = answer hash (length pdu.payload_in_transit == 0) (pb.pdu_to_array pdu)

-- `to_string` serialises the FreshHashesContainer.
unfoldable pub commit_fresh_resp :
    (List Bytes → Bytes) → Bytes → List Bytes → DcClient → Bool × DcClient
commit_fresh_resp to_string hash fresh_hashes = answer hash false (to_string fresh_hashes)
