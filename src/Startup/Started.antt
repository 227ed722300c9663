-- ===== src/Startup/Started.antt =====
-- What a program that has just started does: it mounts given two addresses, it is answered where it
-- listens, and it knows no file.
use dcfs_client.Base.{
  ℕ, ◌<◌, ◌≡◌, ◌≢◌, refl, sym, ap, ap₂, ◌∙◌, Bool, true, false, Option, none, some, Outcome,
  if◌then◌else◌, List, ◌∷◌, ◌++◌, Bytes, length, ascii, strcmp_eq, ok, arith, subst,
}
use mathlib.Core.List.{append_assoc}
use dcfs_client.Crypto.{OpenSsl, KeyGen}
use dcfs_client.Capsule.{RecordType, Protobuf, Server}
use dcfs_client.ClientComm.{new_client_comm, listen_binds}
use dcfs_client.ClientComm.Servers.RoundTrip.{servers_text, AllFit}
use dcfs_client.ClientComm.Sockets.{Ports, Reaches, new_client_comm-Reaches}
use dcfs_client.Mid.{Env, Mid, find, or_empty, compose_header}
use dcfs_client.Mid.Modify.{get_inode_name}
use dcfs_client.Backend.{FileMeta, read_file_meta}
use dcfs_client.Directory.{find_entry, find_from, found, readdir, init_readdir, new_directory}
use dcfs_client.Dcfs.{Dcfs, dcfs_init, failed, enoent, look_up}
use dcfs_client.Dcfs.Entries.{dcfs_getattr}
use dcfs_client.Dcfs.Valid.{IsValid}
use dcfs_client.Dcfs.Runs.{dcfs_init-IsValid}
use dcfs_client.Startup.{
  DcfsOptions, default_options, load_client_ip, load_dcserver_ip, main_options, Mounted,
  StorageBackend, keys_and_clock, start, mount, new_storage_backend, new_dcfs_mid_sim,
}
use dcfs_client.Startup.Mounting.{
  start-IsStarted, new_client_comm-listens, options_of, load-options,
}

module _ {S : Type 0} (ssl : OpenSsl) (pb : Protobuf) (srv : Server S) (gen : KeyGen) (now : ℕ → ℕ)
    (connects : Bytes → Bool) (disk : S) where
  -- The address for acknowledgements that the middleware of a started program puts into a record's
  -- header, of whatever type, hashes and time, is that of the client in the options and, behind a
  -- colon, the port at which the program's listening thread binds its socket for acknowledgements.
  pub start-replyaddr :
      (parse : DcfsOptions → Option DcfsOptions) (t : Mounted S)
      → start ssl pb srv gen now connects disk parse ≡ ok (some t)
      → (type : RecordType) (hashes : List Bytes) (hash : Bytes) (time : ℕ)
      → (o : DcfsOptions) × (parse default_options ≡ some o)
        × (port : Bytes) × ((compose_header t.backend.env type hashes hash time).replyaddr
            ≡ or_empty o.client_ip ++ ascii ":" ++ port)
        × ((listen_binds t.backend.comm).0 ≡ ascii "tcp://*:" ++ port)
  unfolding listen_binds
  start-replyaddr parse t e type hashes hash time =
      let s = start-IsStarted ssl pb srv gen now connects disk parse t e in
      let (_, _, at) = new_client_comm-listens connects _ _ t.backend.comm s.comm in
      (
        s.options,
        s.parsed,
        ascii "5001",
        ap (λ (ip : Bytes). ip ++ ascii ":5001") s.client_ip
            ∙ sym (append_assoc (or_empty s.options.client_ip) (ascii ":") (ascii "5001")),
        ap (λ (p : Bytes). ascii "tcp://*:" ++ p) at,
      )

  no_meta :
      (env : Env S) (name : Bytes) (meta : FileMeta)
      → (read_file_meta env name (new_dcfs_mid_sim ssl pb srv gen now connects disk)).0 ≢ ok meta
  unfolding read_file_meta get_inode_name find
  no_meta env name meta k = ground arith

  no_entry :
      (env : Env S) (bs : ℕ) (path : Bytes) (m : Mid S)
      → strcmp_eq path (ascii "/") ≡ false
      → (dcfs_getattr env bs path (dcfs_init m)).0 ≡ failed enoent
  unfolding dcfs_getattr dcfs_init look_up find_entry find_from found readdir init_readdir
      new_directory
  no_entry env bs path m t = rw (dcfs_getattr, t) refl

  -- A program that has just started knows no file, whatever the server keeps from before: `ReadFileMeta`
  -- succeeds for no name, and `dcfs_getattr` of every path but "/" is ENOENT.
  pub start_knows_no_file :
      (parse : DcfsOptions → Option DcfsOptions) (t : Mounted S)
      → start ssl pb srv gen now connects disk parse ≡ ok (some t)
      → ((name : Bytes) (meta : FileMeta)
          → (read_file_meta t.backend.env name t.dcfs.inodes.mid).0 ≢ ok meta)
        × ((path : Bytes)
            → strcmp_eq path (ascii "/") ≡ false
            → (dcfs_getattr t.backend.env t.block_size_in_kb path t.dcfs).0 ≡ failed enoent)
  unfolding dcfs_init
  start_knows_no_file parse t e =
      let s = start-IsStarted ssl pb srv gen now connects disk parse t e in
      let m = new_dcfs_mid_sim ssl pb srv gen now connects disk in
      (
        subst
            (λ (d : Dcfs S).
              (name : Bytes) (meta : FileMeta)
              → (read_file_meta t.backend.env name d.inodes.mid).0 ≢ ok meta)
            (sym s.fresh) (no_meta t.backend.env),
        subst
            (λ (d : Dcfs S).
              (path : Bytes)
              → strcmp_eq path (ascii "/") ≡ false
              → (dcfs_getattr t.backend.env t.block_size_in_kb path d).0 ≡ failed enoent)
            (sym s.fresh) (λ path. no_entry t.backend.env t.block_size_in_kb path m),
      )

  -- Not asked for help, and given by its options the address of this client, which is not empty, and the text of a list of at least one server,
  -- "ip:count,ip:count", and where every address can be connected to, the program mounts: with the block
  -- size of its options, a valid state in which no descriptor is open, and a socket for writes at port
  -- 4001 + id and one for gets at port 4300 + id to each of the `count` ids from 101 on at each `ip`.
  -- The addresses have no colon and no comma, and no port is past an `int`.
  pub start-mounts :
      (parse : DcfsOptions → Option DcfsOptions) (o : DcfsOptions) (ip : Bytes) (p : Bytes × ℕ)
      (ps : List (Bytes × ℕ))
      → parse default_options ≡ some o
      → o.show_help ≡ false
      → o.client_ip ≡ some ip
      → o.dcserver_ip ≡ some (servers_text p ps)
      → 0 < length ip
      → AllFit (p ∷ ps)
      → Ports (p ∷ ps)
      → ((addr : Bytes) → connects addr ≡ true)
      → (t : Mounted S) × (start ssl pb srv gen now connects disk parse ≡ ok (some t))
        × (t.block_size_in_kb ≡ o.block_size_in_kb)
        × IsValid 0 t.dcfs
        × Reaches 4001 (p ∷ ps) t.backend.comm.dc_server_dc_sockets
        × Reaches 4300 (p ∷ ps) t.backend.comm.dc_server_serve_sockets
  unfolding start main_options new_storage_backend mount
  start-mounts parse o ip p ps e no_help mine theirs l fit ports always =
      let (c, made, dc, serve) = new_client_comm-Reaches connects always p ps fit ports ip 0 l in
      let (a, b) = load-options o.client_ip o.dcserver_ip in
      let made' : new_client_comm connects (load_dcserver_ip (options_of o))
            (load_client_ip (options_of o)) 0
          ≡ ok c =
        ap₂ (λ (x y : Bytes). new_client_comm connects x y 0) (b ∙ ap or_empty theirs)
          (a ∙ ap or_empty mine)
        ∙ made in
      let m = new_dcfs_mid_sim ssl pb srv gen now connects disk in
      let backend : StorageBackend S = record {
        comm = c;
        env = keys_and_clock ssl pb srv gen now connects disk (options_of o);
        middleware = m;
      } in
      let t : Mounted S = record {
        block_size_in_kb = o.block_size_in_kb;
        backend = backend;
        dcfs = dcfs_init m;
      } in
      let mounts : mount ssl pb srv gen now connects disk o (options_of o) ≡ ok (some t) =
        rw (mount, new_storage_backend, made') refl in
      (
        t,
        rw (start, main_options, e)
            (ap
                (λ (help : Bool).
                  (let r : Outcome (Option (Mounted S)) =
                      (if help
                        then ok none
                        else mount ssl pb srv gen now connects disk o (options_of o)) in
                    r))
                no_help
              ∙ mounts),
        refl,
        dcfs_init-IsValid m,
        dc,
        serve,
      )
