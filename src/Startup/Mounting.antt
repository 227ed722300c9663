-- ===== src/Startup/Mounting.antt =====
-- What a program that mounts is made of.
use dcfs_client.Base.{
  false, ℕ, ◌<◌, ◌≡◌, refl, sym, ap, ap₂, ◌∙◌, Option-cases, Bool, Option, none, some, List, [],
  Bytes, length, ascii, bytes_eq, Outcome, ok, err, fault, ok-injective, arith, ◌==◌, inl, inr,
  Bool-cases,
}
use dcfs_client.Crypto.{OpenSsl, KeyGen}
use dcfs_client.Capsule.{Protobuf, Server}
use dcfs_client.ClientComm.{ClientComm, new_client_comm, connected}
use dcfs_client.ClientComm.Servers.{server_list, connect_servers, to_string, to_string_from, ℤ}
use dcfs_client.Mid.{Env, find, assign, or_empty}
use dcfs_client.Dcfs.{dcfs_init}
use dcfs_client.Startup.{
  DcfsOptions, default_options, OptionMap, load_client_ip, load_dcserver_ip, set_option,
  main_options, Mounted, mount, new_dcfs_mid_sim, keys_and_clock, new_storage_backend, mounted,
  start,
}

some-injective : {A : Type 0} {a b : A} → some a ≡ some b → a ≡ b
some-injective e = cc

abbrev pub options_of : DcfsOptions → OptionMap
options_of o =
    set_option (ascii "dcserver_ip") o.dcserver_ip (set_option (ascii "client_ip") o.client_ip [])

pub load-options :
    (c d : Option Bytes)
    → (load_client_ip (set_option (ascii "dcserver_ip") d (set_option (ascii "client_ip") c []))
        ≡ or_empty c)
      × (load_dcserver_ip (set_option (ascii "dcserver_ip") d (set_option (ascii "client_ip") c []))
          ≡ or_empty d)
unfolding load_client_ip load_dcserver_ip find assign bytes_eq
load-options none none = (refl, refl)
load-options none (some d) = (refl, refl)
load-options (some c) none = (refl, refl)
load-options (some c) (some d) = (refl, refl)

connected-listens :
    (ip : Bytes) (dc serve : Outcome (List Bytes)) (c : ClientComm)
    → connected ip 0 dc serve ≡ ok c
    → c.recv_ack_port ≡ ascii "5001"
unfolding to_string to_string_from
connected-listens ip (ok dc) (ok serve) c e =
    ap (λ (x : ClientComm). x.recv_ack_port) (sym (ok-injective e))
connected-listens ip (ok dc) (err x) c e = cc
connected-listens ip (ok dc) fault c e = cc
connected-listens ip (err x) serve c e = cc
connected-listens ip fault serve c e = cc

listed-listens :
    (connects : Bytes → Bool) (ip : Bytes) (servers : Outcome (List (Bytes × ℤ))) (c : ClientComm)
    → elim servers [
      | ok l ↦
          connected ip 0 (connect_servers connects 4001 l []) (connect_servers connects 4300 l [])
      | err x ↦ fault
      | fault ↦ fault
    ]
      ≡ ok c
    → c.recv_ack_port ≡ ascii "5001"
listed-listens connects ip (ok l) c e =
    connected-listens ip (connect_servers connects 4001 l []) (connect_servers connects 4300 l []) c
      e
listed-listens connects ip (err x) c e = cc
listed-listens connects ip fault c e = cc

-- The constructor of ClientComm needs both addresses, and listens at a fixed port.
pub new_client_comm-listens :
    (connects : Bytes → Bool) (servers ip : Bytes) (c : ClientComm)
    → new_client_comm connects servers ip 0 ≡ ok c
    → (0 < length ip) × (0 < length servers) × (c.recv_ack_port ≡ ascii "5001")
unfolding new_client_comm
new_client_comm-listens connects servers ip c e = elim (Bool-cases (length ip == 0)) [
  | inl z ↦ let k : fault ≡ ok c = rw (new_client_comm, z) at e in cc
  | inr z ↦ elim (Bool-cases (length servers == 0)) [
    | inl y ↦ let k : fault ≡ ok c = rw (new_client_comm, z, y) at e in cc
    | inr y ↦
        let f = rw (new_client_comm, z, y) at e in
        (ground arith, ground arith, listed-listens connects ip (server_list servers) c f)
  ]
]

module _ {S : Type 0} (ssl : OpenSsl) (pb : Protobuf) (srv : Server S) (gen : KeyGen) (now : ℕ → ℕ)
    (connects : Bytes → Bool) (disk : S) where
  -- What a program that mounts is made of.
  pub record IsStarted (parse : DcfsOptions → Option DcfsOptions) (t : Mounted S) : Type 0 where
    pub options : DcfsOptions
    pub parsed : parse default_options ≡ some options
    pub mounts : options.show_help ≡ false
    pub block_size : t.block_size_in_kb ≡ options.block_size_in_kb
    pub comm :
        new_client_comm connects (or_empty options.dcserver_ip) (or_empty options.client_ip) 0
        ≡ ok t.backend.comm
    pub client_ip : t.backend.env.client_ip ≡ or_empty options.client_ip
    pub fresh : t.dcfs ≡ dcfs_init (new_dcfs_mid_sim ssl pb srv gen now connects disk)

  new_storage_backend-ok :
      (m : OptionMap) (o : DcfsOptions) (x : Outcome ClientComm) (t : Mounted S)
      → mounted ssl pb srv gen now connects disk o (elim x [
        | ok c ↦ ok (record {
          comm = c;
          env = keys_and_clock ssl pb srv gen now connects disk m;
          middleware = new_dcfs_mid_sim ssl pb srv gen now connects disk;
        })
        | err e ↦ fault
        | fault ↦ fault
      ])
        ≡ ok t
      → (x ≡ ok t.backend.comm)
        × (t.block_size_in_kb ≡ o.block_size_in_kb)
        × (t.backend.env ≡ keys_and_clock ssl pb srv gen now connects disk m)
        × (t.dcfs ≡ dcfs_init (new_dcfs_mid_sim ssl pb srv gen now connects disk))
  new_storage_backend-ok m o (ok c) t e =
      let is = ok-injective e in
      (
        ap (λ (u : Mounted S). ok u.backend.comm) is,
        ap (λ (u : Mounted S). u.block_size_in_kb) (sym is),
        ap (λ (u : Mounted S). u.backend.env) (sym is),
        ap (λ (u : Mounted S). u.dcfs) (sym is),
      )
  new_storage_backend-ok m o (err x) t e = cc
  new_storage_backend-ok m o fault t e = cc

  after_mount :
      (x : Outcome (Mounted S)) (t : Mounted S)
      → elim x [ ok u ↦ ok (some u) | err e ↦ fault | fault ↦ fault ] ≡ ok (some t)
      → x ≡ ok t
  after_mount (ok u) t e = ap ok (some-injective (ok-injective e))
  after_mount (err x) t e = cc
  after_mount fault t e = cc

  pub start-IsStarted :
      (parse : DcfsOptions → Option DcfsOptions) (t : Mounted S)
      → start ssl pb srv gen now connects disk parse ≡ ok (some t)
      → IsStarted parse t
  unfolding start main_options new_storage_backend mount
  start-IsStarted parse t e = elim (Option-cases (parse default_options)) [
    | inl n ↦ let f : ok none ≡ ok (some t) = rw (start, main_options, n) at e in cc
    | inr (o, q) ↦
        let m = options_of o in
        elim (Bool-cases o.show_help) [
          | inl help ↦ let f : ok none ≡ ok (some t) = rw (start, main_options, q, help) at e in cc
          | inr mounts ↦
              let f = rw (start, main_options, q, mounts) at e in
              let (comm, size, env, dcfs) = new_storage_backend-ok m o _ t (after_mount _ t f) in
              let (mine, theirs) = load-options o.client_ip o.dcserver_ip in
              record {
                options = o;
                parsed = q;
                mounts = mounts;
                block_size = size;
                comm =
                    ap₂ (λ (a b : Bytes). new_client_comm connects a b 0) (sym theirs) (sym mine)
                    ∙ comm;
                client_ip = ap (λ (v : Env S). v.client_ip) env ∙ mine;
                fresh = dcfs;
              }
        ]
  ]
