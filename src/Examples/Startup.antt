-- ===== src/Examples/Startup.antt =====
-- The theorems on the start of the program, for one server.
use dcfs_client.Base.{
  ◌≡◌, ◌≢◌, refl, true, false, some, Option, [], ◌∷◌, Bytes, ascii, arith, ok, replicate, ◌++◌,
  strcmp_eq, bytes_eq, Outcome,
}
use dcfs_client.Crypto.{KeyGen}
use dcfs_client.Capsule.{datablock}
use dcfs_client.DcClient.{new_client}
use dcfs_client.ClientComm.{ClientComm, new_client_comm, listen_binds}
use dcfs_client.ClientComm.Servers.{
  server_list, server_list_from, find_char, server_ip_count, stoi, decimal, connect_servers,
  connect_ids, to_string, to_string_from,
}
use dcfs_client.ClientComm.Servers.RoundTrip.{servers_text}
use dcfs_client.ClientComm.Sockets.{Reaches}
use dcfs_client.Mid.{or_empty, compose_header, find, assign}
use dcfs_client.Backend.{FileMeta, read_file_meta}
use dcfs_client.Dcfs.{dcfs_init, failed, enoent}
use dcfs_client.Dcfs.Entries.{dcfs_getattr}
use dcfs_client.Dcfs.Valid.{IsValid}
use dcfs_client.Startup.{
  DcfsOptions, default_options, main_options, load_client_ip, load_dcserver_ip, Mounted,
  StorageBackend, new_storage_backend, start, mount, new_dcfs_mid_sim, keys_and_clock,
}
use dcfs_client.Startup.Mounting.{options_of}
use dcfs_client.Startup.Started.{start-replyaddr, start_knows_no_file, start-mounts}
use dcfs_client.Examples.Toy.{Store, toy_ssl, toy_protobuf, toy_server}

abbrev toy_gen : KeyGen
toy_gen = record {
  new_by_curve_name = λ k. some k;
  generate_key = λ k. true;
  rand_bytes = λ k. replicate 16 k;
}

-- `--client_ip=j --dcserver_ip=h:1`
abbrev two_addresses : DcfsOptions
two_addresses = record default_options {
  client_ip = some (ascii "j");
  dcserver_ip = some (servers_text (ascii "h", 1) []);
}

abbrev toy_start : (DcfsOptions → Option DcfsOptions) → Outcome (Option (Mounted Store))
toy_start =
    start toy_ssl toy_protobuf toy_server toy_gen (λ k. k) (λ addr. true) ((4 ∷ [], 6 ∷ []) ∷ [])

abbrev one_server : ClientComm
one_server = record {
  ip = ascii "j";
  recv_ack_port = ascii "5001";
  recv_ack_addr = ascii "j:5001";
  recv_get_resp_port = ascii "5101";
  recv_get_resp_addr = ascii "j:5101";
  dc_server_dc_sockets = ascii "h:4102" ∷ [];
  dc_server_serve_sockets = ascii "h:4401" ∷ [];
  recv_ack_map = λ hash. 0;
  dc_client = new_client;
}

abbrev toy_backend : StorageBackend Store
toy_backend = record {
  comm = one_server;
  env =
      keys_and_clock toy_ssl toy_protobuf toy_server toy_gen (λ k. k) (λ addr. true)
        ((4 ∷ [], 6 ∷ []) ∷ []) (options_of two_addresses);
  middleware =
      new_dcfs_mid_sim toy_ssl toy_protobuf toy_server toy_gen (λ k. k) (λ addr. true)
        ((4 ∷ [], 6 ∷ []) ∷ []);
}

abbrev toy_mounted : Mounted Store
toy_mounted = record {
  block_size_in_kb = 16;
  backend = toy_backend;
  dcfs = dcfs_init toy_backend.middleware;
}

starts : toy_start (λ o. some two_addresses) ≡ ok (some toy_mounted)
unfolding start mount main_options new_storage_backend new_client_comm load_client_ip
    load_dcserver_ip find assign bytes_eq server_list server_list_from find_char server_ip_count
    stoi decimal connect_servers connect_ids to_string to_string_from
starts = refl

start-replyaddr_example :
    (o : DcfsOptions) × (some two_addresses ≡ some o)
    × (port : Bytes) × ((compose_header toy_mounted.backend.env datablock [] [] 0).replyaddr
        ≡ or_empty o.client_ip ++ ascii ":" ++ port)
    × ((listen_binds one_server).0 ≡ ascii "tcp://*:" ++ port)
start-replyaddr_example =
    start-replyaddr toy_ssl toy_protobuf toy_server toy_gen (λ k. k) (λ addr. true)
      ((4 ∷ [], 6 ∷ []) ∷ []) (λ o. some two_addresses) toy_mounted starts datablock [] [] 0

start_knows_no_file_example :
    ((name : Bytes) (meta : FileMeta)
      → (read_file_meta toy_mounted.backend.env name toy_mounted.dcfs.inodes.mid).0 ≢ ok meta)
    × ((path : Bytes)
        → strcmp_eq path (ascii "/") ≡ false
        → (dcfs_getattr toy_mounted.backend.env 16 path toy_mounted.dcfs).0 ≡ failed enoent)
start_knows_no_file_example =
    start_knows_no_file toy_ssl toy_protobuf toy_server toy_gen (λ k. k) (λ addr. true)
      ((4 ∷ [], 6 ∷ []) ∷ []) (λ o. some two_addresses) toy_mounted starts

start-mounts_example :
    (t : Mounted Store) × (toy_start (λ o. some two_addresses) ≡ ok (some t))
    × (t.block_size_in_kb ≡ 16)
    × IsValid 0 t.dcfs
    × Reaches 4001 ((ascii "h", 1) ∷ []) t.backend.comm.dc_server_dc_sockets
    × Reaches 4300 ((ascii "h", 1) ∷ []) t.backend.comm.dc_server_serve_sockets
start-mounts_example =
    start-mounts toy_ssl toy_protobuf toy_server toy_gen (λ k. k) (λ addr. true)
      ((4 ∷ [], 6 ∷ []) ∷ []) (λ o. some two_addresses) two_addresses (ascii "j") (ascii "h", 1) []
      refl refl refl refl (omega arith) ((((refl, tt), (refl, tt), omega arith), tt))
      (omega arith, tt) (λ addr. refl)
