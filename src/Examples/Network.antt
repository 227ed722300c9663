-- ===== src/Examples/Network.antt =====
-- The theorems on the listening thread and the sockets, at small inputs.
use dcfs_client.Base.{
  ◌<◌, ◌≡◌, refl, true, false, none, some, [], ◌∷◌, Bytes, replicate, ascii, arith, ok, bytes_eq,
  if◌then◌else◌,
}
use dcfs_client.Capsule.{Pdu}
use dcfs_client.DcClient.{
  PutStatus, GetStatus, set_put, new_client, put_call, put_return, get_call, get_return,
}
use dcfs_client.ClientComm.{Messages, ClientComm, Round, listen_loop}
use dcfs_client.ClientComm.Acks.{put_completes}
use dcfs_client.ClientComm.Late.{second_put_waits}
use dcfs_client.ClientComm.Answers.{get_completes, refused_get_waits}
use dcfs_client.ClientComm.Servers.{
  pos, server_list, server_list_from, find_char, server_ip_count, stoi, decimal,
}
use dcfs_client.Examples.Toy.{toy_protobuf}

-- Every message is an acknowledgement for the hash that it spells, or a response with it as a record.
abbrev ack_of : Bytes → Pdu
ack_of bytes = record {
  header = record {
    sender = 0;
    prevhash = [];
    hash = [];
    timestamp = 0;
    msgtype = ascii "REPLICATION_ACK";
    replyaddr = [];
  };
  header_hash = bytes;
  signature = [];
  payload_in_transit = bytes;
}

-- A response that is empty has no success.
abbrev toy_messages : Messages
toy_messages = record {
  pb = record toy_protobuf { parse_from_array = ack_of };
  parse_response = λ bytes. record {
    success = elim bytes [ [] ↦ false | b ∷ bs ↦ true ];
    hash = bytes;
    pdu = ack_of bytes;
    fresh_resp = false;
    fresh_hashes = [];
  };
  hashes_to_string = λ hs. [];
}

abbrev hash_a : Bytes
hash_a = replicate 32 1

abbrev idle : ClientComm
idle = record {
  ip = ascii "10.0.0.2";
  recv_ack_port = ascii "5001";
  recv_ack_addr = ascii "10.0.0.2:5001";
  recv_get_resp_port = ascii "5101";
  recv_get_resp_addr = ascii "10.0.0.2:5101";
  dc_server_dc_sockets = [];
  dc_server_serve_sockets = [];
  recv_ack_map = λ k. 0;
  dc_client = new_client;
}

abbrev putting : ClientComm
putting = record idle { dc_client = put_call hash_a (9 ∷ []) new_client }

abbrev waiting_put : PutStatus
waiting_put = record { done = false; ret = 0 }

puts_a : putting.dc_client.put_status hash_a ≡ some waiting_put
unfolding put_call new_client bytes_eq
puts_a = refl

-- An acknowledgement, an empty response, and then nothing.
abbrev ack_round : Round
ack_round = record { ack = some hash_a; get_resp = some []; end_signal = false }

abbrev quiet : Round
quiet = record { ack = none; get_resp = none; end_signal = true }

put_completes_example :
    let d = (listen_loop toy_messages (ack_round ∷ quiet ∷ []) putting).1.dc_client in
    put_return hash_a d ≡ some (ok tt, set_put hash_a none d)
put_completes_example =
    put_completes toy_messages hash_a putting waiting_put puts_a refl (omega arith) hash_a refl refl
      ack_round refl (quiet ∷ [])

-- One acknowledgement came, and its `Put` returned.
abbrev acked_once : ClientComm
acked_once = record idle { recv_ack_map = λ k. if bytes_eq hash_a k then 1 else 0 }

acked_a : 0 < acked_once.recv_ack_map hash_a
unfolding bytes_eq
acked_a = omega arith

no_puts : acked_once.dc_client.put_status hash_a ≡ none
unfolding new_client
no_puts = refl

second_put_waits_example :
    let d = record acked_once { dc_client = put_call hash_a (9 ∷ []) acked_once.dc_client } in
    put_return hash_a (listen_loop toy_messages (ack_round ∷ ack_round ∷ []) d).1.dc_client ≡ none
second_put_waits_example =
    second_put_waits toy_messages hash_a (9 ∷ []) acked_once acked_a no_puts
      (ack_round ∷ ack_round ∷ [])

abbrev getting : ClientComm
getting = record idle {
  dc_client =
      (get_call hash_a (record { is_fresh_req = false; is_metaonly_req = false }) new_client).1;
}

abbrev waiting_get : GetStatus
waiting_get = record {
  done = false;
  ret = 0;
  srl_pdu = none;
  is_fresh_req = false;
  is_metaonly_req = false;
}

gets_a : getting.dc_client.get_status hash_a false ≡ some waiting_get
unfolding get_call new_client bytes_eq
gets_a = refl

abbrev response_round : Round
response_round = record { ack = none; get_resp = some hash_a; end_signal = false }

get_completes_example :
    (srl : Bytes) × (get_return hash_a false
        (listen_loop toy_messages (response_round ∷ ack_round ∷ []) getting).1.dc_client
      ≡ some (ok (some srl)))
get_completes_example =
    get_completes toy_messages hash_a hash_a getting waiting_get gets_a refl refl refl
      response_round refl refl (ack_round ∷ [])

refused_get_waits_example :
    get_return hash_a false (listen_loop toy_messages (ack_round ∷ quiet ∷ []) getting).1.dc_client
    ≡ get_return hash_a false getting.dc_client
refused_get_waits_example =
    refused_get_waits toy_messages (ack_round ∷ quiet ∷ []) getting (refl, (tt, tt)) hash_a false

-- A text as the program reads it, and one without a count, of which the number of servers is the first
-- number of the address.
reads_list : server_list (ascii "h:2,i:1") ≡ ok ((ascii "h", pos 2) ∷ (ascii "i", pos 1) ∷ [])
unfolding server_list server_list_from find_char server_ip_count stoi decimal
reads_list = refl

reads_address : server_list (ascii "10.4.0.10") ≡ ok ((ascii "10.4.0.10", pos 10) ∷ [])
unfolding server_list server_list_from find_char server_ip_count stoi decimal
reads_address = refl
