-- ===== src/ClientComm/Servers.antt =====
-- dc-client/client_comm.cpp, the constructor of ClientComm: the list of servers, "ip:count,ip:count", and
-- the sockets that it makes. `std::stoi` and `std::to_string` are written out as far as they are used.
pub mod Decimal
pub mod Fuel
pub mod RoundTrip
use dcfs_client.Base.{
  ℕ, zero, suc, ◌+◌, ◌-◌, ◌*◌, ◌/◌, ◌%◌, Bool, true, false, ◌&&◌, ◌||◌, Option, none, some, List,
  [], ◌∷◌, ◌++◌, Bytes, take, drop, length, ascii, bytes_eq, ltb, leb, ◌==◌, if◌then◌else◌, Outcome,
  ok, err, fault,
}
use dcfs_client.Encode.{is_space}

-- An `int`; `negsuc n` is -(n + 1).
pub data ℤ : Type 0 where
  pos : ℕ → ℤ
  negsuc : ℕ → ℤ

abbrev pub is_digit : ℕ → Bool
is_digit c = leb 48 c && leb c 57

-- Digits up to the first character that is none.
unfoldable pub decimal : ℕ → Bytes → ℕ
decimal n [] = n
decimal n (c ∷ cs) = let rest = decimal (n * 10 + (c - 48)) cs in if is_digit c then rest else n

-- What does not fit an `int` is thrown out of `stoi`.
abbrev pub to_int : Bool → ℕ → Outcome ℤ
to_int false n = if ltb n 2147483648 then ok (pos n) else fault
to_int true zero = ok (pos 0)
to_int true (suc m) = if ltb m 2147483648 then ok (negsuc m) else fault

-- Without a digit `stoi` throws as well.
abbrev pub unsigned_int : Bool → Bytes → Outcome ℤ
unsigned_int negative [] = fault
unsigned_int negative (c ∷ cs) = if is_digit c then to_int negative (decimal 0 (c ∷ cs)) else fault

abbrev pub signed_int : Bytes → Outcome ℤ
signed_int [] = fault
signed_int (c ∷ cs) =
    if c == 45
    then unsigned_int true cs
    else if c == 43
    then unsigned_int false cs
    else unsigned_int false (c ∷ cs)

unfoldable pub stoi : Bytes → Outcome ℤ
stoi [] = fault
stoi (c ∷ cs) = let rest = stoi cs in if is_space c then rest else signed_int (c ∷ cs)

-- The digits of a number below 10 to the power of the fuel.
unfoldable pub to_string_from : ℕ → ℕ → Bytes
to_string_from zero n = []
to_string_from (suc fuel) n =
    let rest = to_string_from fuel (n / 10) in
    if ltb n 10 then (48 + n) ∷ [] else rest ++ (48 + n % 10) ∷ []

-- A number has at most as many digits as one more than itself.
unfoldable pub to_string : ℕ → Bytes
to_string n = to_string_from (suc n) n

-- The position of the first such character, `none` for `npos`.
unfoldable pub find_char : ℕ → Bytes → Option ℕ
find_char c [] = none
find_char c (x ∷ xs) =
    let rest : Option ℕ = elim (find_char c xs) [ none ↦ none | some i ↦ some (suc i) ] in
    if x == c then some 0 else rest

abbrev pub with_count : Bytes → Outcome ℤ → Outcome (Bytes × ℤ)
with_count ip (ok count) = ok (ip, count)
with_count ip (err e) = fault
with_count ip fault = fault

-- "ip:count". Without the colon `pos` is -1, and both are taken from the whole text.
unfoldable pub server_ip_count : Bytes → Outcome (Bytes × ℤ)
server_ip_count ip_count = elim (find_char 58 ip_count) [
  | none ↦ with_count ip_count (stoi ip_count)
  | some i ↦ with_count (take i ip_count) (stoi (drop (i + 1) ip_count))
]

abbrev pub push_front :
    Outcome (Bytes × ℤ) → Outcome (List (Bytes × ℤ)) → Outcome (List (Bytes × ℤ))
push_front (ok p) (ok ps) = ok (p ∷ ps)
push_front (ok p) (err e) = fault
push_front (ok p) fault = fault
push_front (err e) ps = fault
push_front fault ps = fault

-- The loop over the commas, on the text from `last` on, and what follows the last of them. The rounds
-- left are fuel.
unfoldable pub server_list_from : ℕ → Bytes → Outcome (List (Bytes × ℤ))
server_list_from zero text = ok []
server_list_from (suc rounds) text =
    let last = push_front (server_ip_count text) (ok []) in
    let more = λ (next : ℕ).
      push_front (server_ip_count (take next text))
        (server_list_from rounds (drop (next + 1) text)) in
    elim (find_char 44 text) [ none ↦ last | some next ↦ more next ]

-- There are fewer commas than one more than the characters.
unfoldable pub server_list : Bytes → Outcome (List (Bytes × ℤ))
server_list server_ips = server_list_from (suc (length server_ips)) server_ips

abbrev pub has : Bytes → List Bytes → Bool
has addr [] = false
has addr (a ∷ addrs) = bytes_eq addr a || has addr addrs

-- `emplace` leaves a socket that is there.
abbrev pub emplace : Bytes → List Bytes → List Bytes
emplace addr sockets = if has addr sockets then sockets else sockets ++ addr ∷ []

abbrev pub server_addr : ℕ → Bytes → ℕ → Bytes
server_addr base_port ip i = ip ++ ascii ":" ++ to_string (base_port + i)

module _ (connects : Bytes → Bool) (base_port : ℕ) where
  -- The loop over the ids of one server, from `i` on. A port past an `int` is undefined behaviour.
  unfoldable pub connect_ids : Bytes → ℕ → ℕ → List Bytes → Outcome (List Bytes)
  connect_ids ip i zero sockets = ok sockets
  connect_ids ip i (suc count) sockets =
      let addr = server_addr base_port ip i in
      let rest = connect_ids ip (i + 1) count (emplace addr sockets) in
      if ltb (base_port + i) 2147483648 && connects addr then rest else fault

  -- The loop over the servers; the first id is 101.
  unfoldable pub connect_servers : List (Bytes × ℤ) → List Bytes → Outcome (List Bytes)
  connect_servers [] sockets = ok sockets
  connect_servers ((ip, negsuc n) ∷ servers) sockets = connect_servers servers sockets
  connect_servers ((ip, pos n) ∷ servers) sockets = elim (connect_ids ip 101 n sockets) [
    | ok more ↦ connect_servers servers more
    | err e ↦ fault
    | fault ↦ fault
  ]
