-- ===== src/ClientComm.antt =====
-- dc-client/client_comm.hpp and client_comm.cpp, class ClientComm: the sockets to the servers, and the
-- listening thread with its handlers. ZeroMQ and `rand` are parameters: which addresses can be connected
-- to, which messages a round of polling finds, which number is drawn. A socket is the address that it is
-- connected to. `exit` and an exception that nothing catches are faults here.
pub mod Servers
pub mod Loop
pub mod Acks
pub mod Late
pub mod Answers
pub mod Sockets
use dcfs_client.Base.{
  ℕ, zero, suc, ◌+◌, ◌%◌, Bool, true, false, ◌&&◌, Option, none, some, List, [], ◌∷◌, ◌++◌, Bytes,
  length, get_or, map, ascii, bytes_eq, ltb, ◌==◌, if◌then◌else◌, Outcome, ok, err, fault, Exec,
}
use dcfs_client.Capsule.{Pdu, Protobuf}
use dcfs_client.DcClient.{DcClient, new_client, commit_ack, commit_get_resp, commit_fresh_resp}
use dcfs_client.ClientComm.Servers.{server_list, connect_servers, to_string}

-- ClientGetResponse, but for the address of this client.
pub record GetResponse : Type 0 where
  pub success : Bool
  pub hash : Bytes
  pub pdu : Pdu
  pub fresh_resp : Bool
  pub fresh_hashes : List Bytes

-- The generated code for the messages of request.proto, and that for capsule.proto.
pub record Messages : Type 0 where
  pub pb : Protobuf
  pub parse_response : Bytes → GetResponse
  pub hashes_to_string : List Bytes → Bytes

-- `dc_client` is the DCClient that `m_dc_client` points to.
pub record ClientComm : Type 0 where
  pub ip : Bytes
  pub recv_ack_port : Bytes
  pub recv_ack_addr : Bytes
  pub recv_get_resp_port : Bytes
  pub recv_get_resp_addr : Bytes
  pub dc_server_dc_sockets : List Bytes
  pub dc_server_serve_sockets : List Bytes
  pub recv_ack_map : Bytes → ℕ
  pub dc_client : DcClient

-- What one round of polling finds, and whether `end_signal` is set behind it.
pub record Round : Type 0 where
  pub ack : Option Bytes
  pub get_resp : Option Bytes
  pub end_signal : Bool

abbrev pub int_max : ℕ
int_max = 2147483647

-- WRITE_THRESHOLD
abbrev pub write_threshold : ℕ
write_threshold = 1

abbrev pub connected : Bytes → ℕ → Outcome (List Bytes) → Outcome (List Bytes) → Outcome ClientComm
connected ip client_id (ok dc) (ok serve) =
    let ack_port = to_string (5001 + client_id) in
    let get_resp_port = to_string (5101 + client_id) in
    ok (record {
      ip = ip;
      recv_ack_port = ack_port;
      recv_ack_addr = ip ++ ascii ":" ++ ack_port;
      recv_get_resp_port = get_resp_port;
      recv_get_resp_addr = ip ++ ascii ":" ++ get_resp_port;
      dc_server_dc_sockets = dc;
      dc_server_serve_sockets = serve;
      recv_ack_map = λ hash. 0;
      dc_client = new_client;
    })
connected ip client_id (ok dc) (err e) = fault
connected ip client_id (ok dc) fault = fault
connected ip client_id (err e) serve = fault
connected ip client_id fault serve = fault

-- The constructor, with OUTGOING_MODE 1. `server_ips` is `Util::load_dcserver_ip()`.
unfoldable pub new_client_comm : (Bytes → Bool) → Bytes → Bytes → ℕ → Outcome ClientComm
new_client_comm connects server_ips ip client_id =
    if length ip == 0
    then fault
    else if length server_ips == 0
    then fault
    else elim (server_list server_ips) [
      | ok servers ↦
          connected ip client_id (connect_servers connects 4001 servers [])
            (connect_servers connects 4300 servers [])
      | err e ↦ fault
      | fault ↦ fault
    ]

-- The messages that go out, each with the address of its socket. The order of the sockets is that of
-- an unordered map, which nothing fixes.
unfoldable pub mcast_dc : Bytes → ClientComm → List (Bytes × Bytes)
mcast_dc msg c = map (λ addr. (addr, msg)) c.dc_server_dc_sockets

-- `random` is what `rand()` returns. Without a socket it is divided by 0.
unfoldable pub send_get_req : ℕ → Bytes → ClientComm → Outcome (Bytes × Bytes)
send_get_req random msg c =
    let size = length c.dc_server_serve_sockets in
    if size == 0 then fault else ok (get_or c.dc_server_serve_sockets (random % size) [], msg)

-- `m_recv_ack_map[hash] += 1`
abbrev pub count_ack : Bytes → ClientComm → ClientComm
count_ack hash c = record c {
  recv_ack_map = λ k. if bytes_eq hash k then c.recv_ack_map hash + 1 else c.recv_ack_map k;
}

-- Where `run_dc_client_listen_server` binds its two sockets, the one for acknowledgements first.
unfoldable pub listen_binds : ClientComm → Bytes × Bytes
listen_binds c = (ascii "tcp://*:" ++ c.recv_ack_port, ascii "tcp://*:" ++ c.recv_get_resp_port)

module _ (messages : Messages) where
  -- Below the threshold and past it the acknowledgement is only counted. The message for the log reads
  -- 32 bytes of the hash, one of which may be the NUL behind it.
  unfoldable pub count_and_commit : Bytes → Exec ClientComm (Unit {0})
  count_and_commit hash c =
      let counted = count_ack hash c in
      if counted.recv_ack_map hash == write_threshold
      then (if ltb (length hash + 1) 32
          then (fault, counted)
          else (ok tt, record counted { dc_client = (commit_ack hash counted.dc_client).1 }))
      else (ok tt, counted)

  -- The assertion, and the counter, which is an `int`.
  unfoldable pub handle_ack : Bytes → Exec ClientComm (Unit {0})
  handle_ack msg c =
      let ack_dc = messages.pb.parse_from_array msg in
      if bytes_eq ack_dc.header.msgtype (ascii "REPLICATION_ACK")
        && ltb (c.recv_ack_map ack_dc.header_hash) int_max
      then count_and_commit ack_dc.header_hash c
      else (fault, c)

  -- A response without success is dropped.
  unfoldable pub handle_get_resp : Bytes → ClientComm → ClientComm
  handle_get_resp msg c =
      let resp = messages.parse_response msg in
      if resp.success
      then (if resp.fresh_resp
          then record c {
            dc_client =
                (commit_fresh_resp messages.hashes_to_string resp.hash resp.fresh_hashes
                  c.dc_client).1;
          }
          else record c {
            dc_client = (commit_get_resp messages.pb resp.hash resp.pdu c.dc_client).1;
          })
      else c

  handle_ack_if : Option Bytes → Exec ClientComm (Unit {0})
  handle_ack_if none c = (ok tt, c)
  handle_ack_if (some msg) c = handle_ack msg c

  handle_get_resp_if : Option Bytes → ClientComm → ClientComm
  handle_get_resp_if none c = c
  handle_get_resp_if (some msg) c = handle_get_resp msg c

  pub then_respond :
      Option Bytes → Outcome (Unit {0}) × ClientComm → Outcome (Unit {0}) × ClientComm
  then_respond get_resp (ok u, c) = (ok tt, handle_get_resp_if get_resp c)
  then_respond get_resp (err e, c) = (err e, c)
  then_respond get_resp (fault, c) = (fault, c)

  -- One round of the loop, an acknowledgement before a response.
  unfoldable pub listen_round : Round → Exec ClientComm (Unit {0})
  unfolding handle_ack_if handle_get_resp_if then_respond
  listen_round round c = then_respond round.get_resp (handle_ack_if round.ack c)

  pub after_round :
      Bool
      → Outcome (Unit {0}) × ClientComm
      → Exec ClientComm (Unit {0})
      → Outcome (Unit {0}) × ClientComm
  after_round end_signal (ok u, c) rest =
      let more = rest c in if end_signal then (ok tt, c) else more
  after_round end_signal (err e, c) rest = (err e, c)
  after_round end_signal (fault, c) rest = (fault, c)

  -- The loop of `run_dc_client_listen_server`, over the rounds that come, until one ends with the
  -- signal.
  unfoldable pub listen_loop : List Round → Exec ClientComm (Unit {0})
  unfolding after_round
  listen_loop [] c = (ok tt, c)
  listen_loop (round ∷ rounds) c =
      after_round round.end_signal (listen_round round c) (listen_loop rounds)

  -- A socket that cannot be bound throws in the listening thread, which ends the program.
  run_dc_client_listen_server : (Bytes → Bool) → List Round → Exec ClientComm (Unit {0})
  unfolding listen_loop listen_binds
  run_dc_client_listen_server binds rounds c =
      let (acks, responses) = listen_binds c in
      if binds acks
      then (if binds responses then listen_loop rounds c else (fault, c))
      else (fault, c)
