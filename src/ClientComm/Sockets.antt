-- ===== src/ClientComm/Sockets.antt =====
-- The constructor of ClientComm connects to every server of its list.
use dcfs_client.Base.{
  ℕ, zero, suc, ◌+◌, ◌≤◌, ◌<◌, ◌≡◌, refl, true, false, Bool, List, [], ◌∷◌, ◌++◌, Bytes, length,
  length-append, bytes_eq, bytes_eq_refl, ltb, ◌==◌, Outcome, ok, arith, inl, inr, Bool-cases,
  subst,
}
use dcfs_client.ClientComm.{ClientComm, new_client_comm, connected}
use dcfs_client.ClientComm.Servers.{
  has, emplace, server_addr, connect_ids, connect_servers, to_string,
}
use dcfs_client.ClientComm.Servers.RoundTrip.{
  servers_text, server_text, AllFit, counts, server_list-round_trip,
}

has-append : (b a : Bytes) (s : List Bytes) → has b s ≡ true → has b (s ++ a ∷ []) ≡ true
has-append b a [] h = cc
has-append b a (x ∷ s) h = elim (Bool-cases (bytes_eq b x)) [
  | inl t ↦ rw t refl
  | inr t ↦ let rest : has b s ≡ true = rw t at h in rw (t, has-append b a s rest) refl
]

has-append_last : (a : Bytes) (s : List Bytes) → has a (s ++ a ∷ []) ≡ true
has-append_last a [] = rw (bytes_eq_refl a) refl
has-append_last a (x ∷ s) = elim (Bool-cases (bytes_eq a x)) [
  | inl t ↦ rw t refl
  | inr t ↦ rw (t, has-append_last a s) refl
]

has-emplace : (b a : Bytes) (s : List Bytes) → has b s ≡ true → has b (emplace a s) ≡ true
has-emplace b a s h = elim (Bool-cases (has a s)) [
  | inl t ↦ rw t h
  | inr t ↦ rw t (has-append b a s h)
]

has-emplace_self : (a : Bytes) (s : List Bytes) → has a (emplace a s) ≡ true
has-emplace_self a s = elim (Bool-cases (has a s)) [
  | inl t ↦ rw (t, t) refl
  | inr t ↦ rw t (has-append_last a s)
]

-- The first of the ids and the others.
ids-cons :
    (Q : ℕ → Type 0) (i n : ℕ)
    → Q i
    → ((k : ℕ) → k < n → Q (i + 1 + k))
    → (k : ℕ) → k < suc n
    → Q (i + k)
ids-cons Q i n q h zero l = let at : i ≡ i + 0 = omega arith in subst Q at q
ids-cons Q i n q h (suc k) l =
    let at : i + 1 + k ≡ i + suc k = omega arith in subst Q at (h k (omega (arith, l)))

-- The sockets of every server are among these.
abbrev pub Reaches : ℕ → List (Bytes × ℕ) → List Bytes → Type 0
Reaches base_port [] sockets = Unit {0}
Reaches base_port ((ip, count) ∷ servers) sockets =
    ((k : ℕ) → k < count → has (server_addr base_port ip (101 + k)) sockets ≡ true)
    × Reaches base_port servers sockets

-- No port is past an `int`.
abbrev pub Ports : List (Bytes × ℕ) → Type 0
Ports [] = Unit {0}
Ports ((ip, count) ∷ servers) = (count + 4401 < 2147483648) × Ports servers

module _ (connects : Bytes → Bool) (always : (addr : Bytes) → connects addr ≡ true) (base_port : ℕ)
    (low : base_port ≤ 4300) where
  connect_ids-ok :
      (ip : Bytes) (i n : ℕ) (s : List Bytes)
      → base_port + (i + n) < 2147483648
      → (out : List Bytes) × (connect_ids connects base_port ip i n s ≡ ok out)
        × ((b : Bytes) → has b s ≡ true → has b out ≡ true)
        × ((k : ℕ) → k < n → has (server_addr base_port ip (i + k)) out ≡ true)
  unfolding connect_ids
  connect_ids-ok ip i zero s l = (s, refl, (λ b h. h), λ k p. absurd (omega (arith, p)))
  connect_ids-ok ip i (suc n) s l =
      let addr = server_addr base_port ip i in
      let (out, runs, keeps, new) =
        connect_ids-ok ip (i + 1) n (emplace addr s) (omega (arith, l)) in
      let small : ltb (base_port + i) 2147483648 ≡ true = ground arith in
      (
        out,
        rw (small, always addr) runs,
        (λ b h. keeps b (has-emplace b addr s h)),
        ids-cons (λ j. has (server_addr base_port ip j) out ≡ true) i n
            (keeps addr (has-emplace_self addr s)) new,
      )

  connect_servers-ok :
      (servers : List (Bytes × ℕ)) (s : List Bytes)
      → Ports servers
      → (out : List Bytes) × (connect_servers connects base_port (counts servers) s ≡ ok out)
        × ((b : Bytes) → has b s ≡ true → has b out ≡ true)
        × Reaches base_port servers out
  unfolding connect_servers
  connect_servers-ok [] s p = (s, refl, (λ b h. h), tt)
  connect_servers-ok ((ip, count) ∷ servers) s p =
      let (more, ids, kept, new) = connect_ids-ok ip 101 count s (omega (arith, p.0, low)) in
      let (out, runs, keeps, all) = connect_servers-ok servers more p.1 in
      (
        out,
        rw (connect_servers, ids) runs,
        (λ b h. keeps b (kept b h)),
        ((λ k l. keeps _ (new k l)), all),
      )

servers_text-some : (p : Bytes × ℕ) (ps : List (Bytes × ℕ)) → 0 < length (servers_text p ps)
servers_text-some (ip, count) [] = omega (arith, length-append ip (58 ∷ to_string count))
servers_text-some (ip, count) (q ∷ ps) =
    omega (arith, length-append (server_text (ip, count)) (44 ∷ servers_text q ps))

-- Where every address can be connected to, the constructor given the text of a list of at least one
-- server, "ip:count,ip:count", and the address of this client, makes a ClientComm, with a socket for
-- writes at port 4001 + id and one for gets at port 4300 + id to each of the `count` ids from 101 on at
-- each `ip`. The addresses have no colon and no comma, and no port is past an `int`.
pub new_client_comm-Reaches :
    (connects : Bytes → Bool)
    → ((addr : Bytes) → connects addr ≡ true)
    → (p : Bytes × ℕ) (ps : List (Bytes × ℕ)) → AllFit (p ∷ ps)
    → Ports (p ∷ ps)
    → (ip : Bytes) (client_id : ℕ) → 0 < length ip
    → (c : ClientComm) × (new_client_comm connects (servers_text p ps) ip client_id ≡ ok c)
      × Reaches 4001 (p ∷ ps) c.dc_server_dc_sockets
      × Reaches 4300 (p ∷ ps) c.dc_server_serve_sockets
unfolding new_client_comm
new_client_comm-Reaches connects always p ps fit ports ip client_id l =
    let (dc, dc_runs, _, dc_all) =
      connect_servers-ok connects always 4001 (omega arith) (p ∷ ps) [] ports in
    let (serve, serve_runs, _, serve_all) =
      connect_servers-ok connects always 4300 (omega arith) (p ∷ ps) [] ports in
    let there : (length ip == 0) ≡ false = ground arith in
    let some_text : (length (servers_text p ps) == 0) ≡ false =
      ground (arith, servers_text-some p ps) in
    let made : new_client_comm connects (servers_text p ps) ip client_id
        ≡ connected ip client_id (ok dc) (ok serve) =
      rw (new_client_comm, there, some_text, server_list-round_trip p ps fit, dc_runs, serve_runs)
        refl in
    connected-Reaches ip client_id dc serve _ made dc_all serve_all
  where
    connected-Reaches :
        (me : Bytes) (id : ℕ) (dc serve : List Bytes) (x : Outcome ClientComm)
        → x ≡ connected me id (ok dc) (ok serve)
        → Reaches 4001 (p ∷ ps) dc
        → Reaches 4300 (p ∷ ps) serve
        → (c : ClientComm) × (x ≡ ok c)
          × Reaches 4001 (p ∷ ps) c.dc_server_dc_sockets
          × Reaches 4300 (p ∷ ps) c.dc_server_serve_sockets
    connected-Reaches me id dc serve x e a b = (_, e, a, b)
