-- ===== src/Startup.antt =====
-- From `main` to a mounted file system: fs/dcfs.cpp, `main` and `dcfs_init`; util/options.cpp; the
-- constructors of StorageBackend and DCFSMidSim in fs/backend.hpp, of DCServerNet in fs/backend_real.cpp
-- and of DCClient. `fuse_opt_parse` and `fuse_main` are library calls: the first is a function of the
-- options given, `none` where it returns -1; the second calls `dcfs_init`, but with
-- `--help` among its arguments.
pub mod Mounting
pub mod Started
use dcfs_client.Base.{
  ℕ, ◌+◌, Bool, false, Option, none, some, List, [], Bytes, ascii, Outcome, ok, err, fault,
  if◌then◌else◌,
}
use dcfs_client.Crypto.{OpenSsl, KeyGen, generate_ecdsa_key, generate_symmetric_key}
use dcfs_client.Capsule.{Protobuf, Server}
use dcfs_client.ClientComm.{ClientComm, new_client_comm}
use dcfs_client.Mid.{Env, Mid, find, assign, or_empty}
use dcfs_client.Dcfs.{Dcfs, dcfs_init}

-- dcfs.hpp; `none` is a null `char *`.
pub record DcfsOptions : Type 0 where
  pub block_size_in_kb : ℕ
  pub client_ip : Option Bytes
  pub dcserver_ip : Option Bytes
  pub show_help : Bool

-- What `main` sets before the options are parsed.
abbrev pub default_options : DcfsOptions
default_options = record {
  block_size_in_kb = 16;
  client_ip = some [];
  dcserver_ip = some [];
  show_help = false;
}

-- `Util::option_map`
abbrev pub OptionMap : Type 0
OptionMap = List (Bytes × Bytes)

unfoldable pub load_client_ip : OptionMap → Bytes
load_client_ip m = or_empty (find (ascii "client_ip") m)

unfoldable pub load_dcserver_ip : OptionMap → Bytes
load_dcserver_ip m = or_empty (find (ascii "dcserver_ip") m)

-- `if (options.x) Util::option_map["x"] = std::string(options.x)`
abbrev pub set_option : Bytes → Option Bytes → OptionMap → OptionMap
set_option key none m = m
set_option key (some value) m = assign key value m

-- `main` up to `fuse_main`: the options, `option_map`, and whether `--help` is added to the arguments of
-- `fuse_main`, behind a text that is printed; or `none` where `main` returns 1.
unfoldable pub main_options :
    (DcfsOptions → Option DcfsOptions) → Option (DcfsOptions × OptionMap × Bool)
main_options parse = elim (parse default_options) [
  | none ↦ none
  | some o ↦ some (
    o,
    set_option (ascii "dcserver_ip") o.dcserver_ip (set_option (ascii "client_ip") o.client_ip []),
    o.show_help,
  )
]

-- What the StorageBackend is made of: the DCClient in the DCServerNet, and the middleware.
pub record StorageBackend (S : Type 0) : Type 0 where
  pub comm : ClientComm
  pub env : Env S
  pub middleware : Mid S

pub record Mounted (S : Type 0) : Type 0 where
  pub block_size_in_kb : ℕ
  pub backend : StorageBackend S
  pub dcfs : Dcfs S

-- CLIENT_ID
abbrev pub the_client_id : ℕ
the_client_id = 0

-- The libraries, the server behind DCServerNet with its state, and the clock.
module _ {S : Type 0} (ssl : OpenSsl) (pb : Protobuf) (srv : Server S) (gen : KeyGen) (now : ℕ → ℕ)
    (connects : Bytes → Bool) (disk : S) where
  -- The constructor, which makes a DCClient and with it a ClientComm.
  abbrev pub new_dc_server_net : OptionMap → Outcome ClientComm
  new_dc_server_net m =
      new_client_comm connects (load_dcserver_ip m) (load_client_ip m) the_client_id

  abbrev pub new_dcfs_mid_sim : Mid S
  new_dcfs_mid_sim = record { index = []; root = ([], []); server = disk; ticks = 0; keys = 0 }

  -- The first EC key is the client's, with which the middleware verifies; the first symmetric key is the
  -- middleware's, and the later ones are those of new files.
  abbrev pub keys_and_clock : OptionMap → Env S
  keys_and_clock m = record {
    ssl = ssl;
    pb = pb;
    srv = srv;
    client_key = (generate_ecdsa_key gen 0).1;
    middleware_key = generate_symmetric_key gen 0;
    client_ip = load_client_ip m;
    now = now;
    fresh_key = λ k. generate_symmetric_key gen (k + 1);
  }

  unfoldable pub new_storage_backend : OptionMap → Outcome (StorageBackend S)
  new_storage_backend m = elim (new_dc_server_net m) [
    | ok c ↦ ok (record { comm = c; env = keys_and_clock m; middleware = new_dcfs_mid_sim })
    | err e ↦ fault
    | fault ↦ fault
  ]

  abbrev pub mounted : DcfsOptions → Outcome (StorageBackend S) → Outcome (Mounted S)
  mounted o (ok b) =
      ok (record {
        block_size_in_kb = o.block_size_in_kb;
        backend = b;
        dcfs = dcfs_init b.middleware;
      })
  mounted o (err e) = fault
  mounted o fault = fault

  unfoldable pub mount : DcfsOptions → OptionMap → Outcome (Option (Mounted S))
  mount o m = elim (mounted o (new_storage_backend m)) [
    | ok t ↦ ok (some t)
    | err e ↦ fault
    | fault ↦ fault
  ]

  -- `main`, and `dcfs_init` when FUSE calls it. `none` is where nothing is mounted: `main` returns 1
  -- before `fuse_main`, or adds `--help` to its arguments, with which it prints a text and returns.
  unfoldable pub start : (DcfsOptions → Option DcfsOptions) → Outcome (Option (Mounted S))
  unfolding mount
  start parse = elim (main_options parse) [
    | none ↦ ok none
    | some p ↦ if p.2 then ok none else mount p.0 p.1
  ]
