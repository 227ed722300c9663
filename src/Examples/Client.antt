-- ===== src/Examples/Client.antt =====
-- The theorems on the client of the servers, after one put and one get.
use dcfs_client.Base.{
  ◌≡◌, ◌≤◌, ◌⊎◌, length, fault, Outcome, refl, false, none, some, List, [], ◌∷◌, Bytes, bytes_eq,
  ok,
}
use dcfs_client.Capsule.{Pdu}
use dcfs_client.DcClient.{
  DcGetOptions, DcClient, set_put, new_client, put_call, put_return, get_call, get_return,
  commit_ack, answer, commit_get_resp,
}
use dcfs_client.DcClient.Kept.{Answer, Has}
use dcfs_client.DcClient.Runs.{Reach}
use dcfs_client.DcClient.Returns.{put_return_acked, get_return_answered}
use dcfs_client.DcServer.Net.{net_read_return, net_read_return_answered}
use dcfs_client.Examples.Toy.{toy_protobuf}

abbrev no_hashes : List Bytes → Bytes
no_hashes hs = []

abbrev plain_get : DcGetOptions
plain_get = record { is_fresh_req = false; is_metaonly_req = false }

abbrev seven : Pdu
seven = toy_protobuf.parse_from_array (7 ∷ [])

abbrev after_put : DcClient
after_put = (commit_ack (1 ∷ []) (put_call (1 ∷ []) (9 ∷ []) new_client)).1

after_put-Reach : Reach toy_protobuf no_hashes ((1 ∷ []) ∷ []) [] after_put
after_put-Reach = Reach.acked (1 ∷ []) (Reach.puts (1 ∷ []) (9 ∷ []) Reach.start)

abbrev put_end : DcClient
put_end = set_put (1 ∷ []) none after_put

put_returns : put_return (1 ∷ []) after_put ≡ some (ok tt, put_end)
unfolding put_return commit_ack put_call new_client bytes_eq
put_returns = refl

abbrev after_get : DcClient
after_get =
    (commit_get_resp toy_protobuf (2 ∷ []) seven (get_call (2 ∷ []) plain_get new_client).1).1

after_get-Reach : Reach toy_protobuf no_hashes [] ((2 ∷ [], false, 7 ∷ []) ∷ []) after_get
after_get-Reach = Reach.answered (2 ∷ []) seven (Reach.gets (2 ∷ []) plain_get Reach.start)

get_returns : get_return (2 ∷ []) false after_get ≡ some (ok (some (7 ∷ [])))
unfolding get_return commit_get_resp answer get_call new_client bytes_eq
get_returns = refl

get_return_answered_example :
    (srl : Bytes) × (some (7 ∷ []) ≡ some srl)
    × Has {A = Answer} (2 ∷ [], false, srl) ((2 ∷ [], false, 7 ∷ []) ∷ [])
get_return_answered_example =
    get_return_answered toy_protobuf no_hashes [] ((2 ∷ [], false, 7 ∷ []) ∷ []) after_get
      after_get-Reach (2 ∷ []) false (some (7 ∷ [])) get_returns

put_return_acked_example : Has {A = Bytes} (1 ∷ []) ((1 ∷ []) ∷ [])
put_return_acked_example =
    put_return_acked toy_protobuf no_hashes ((1 ∷ []) ∷ []) [] after_put after_put-Reach (1 ∷ [])
      put_end put_returns

abbrev read_seven : Outcome Bytes
read_seven = ok (7 ∷ [])

net_returns : net_read_return (2 ∷ []) 16 after_get ≡ some read_seven
unfolding net_read_return get_return commit_get_resp answer get_call new_client bytes_eq
net_returns = refl

net_read_return_answered_example :
    (read_seven ≡ fault)
    ⊎ ((bytes : Bytes) × (read_seven ≡ ok bytes)
        × (length bytes ≤ 16)
        × Has {A = Answer} (2 ∷ [], false, bytes) ((2 ∷ [], false, 7 ∷ []) ∷ []))
net_read_return_answered_example =
    net_read_return_answered toy_protobuf no_hashes [] ((2 ∷ [], false, 7 ∷ []) ∷ []) after_get
      after_get-Reach (2 ∷ []) 16 read_seven net_returns
