-- ===== src/ClientComm/Servers/RoundTrip.antt =====
-- A list of servers in the format that dc_config.hpp describes is read as what it says.
use dcfs_client.Base.{
  ℕ, zero, suc, ◌+◌, ◌≤◌, ◌<◌, ◌≡◌, refl, ap, ◌∙◌, true, false, none, some, List, [], ◌∷◌, ◌++◌,
  map, Bytes, drop, length, length-append, take-append_self, ◌==◌, ok, arith,
}
use dcfs_client.ClientComm.Servers.{
  ℤ, pos, to_string, find_char, server_ip_count, server_list_from, server_list,
}
use dcfs_client.ClientComm.Servers.Decimal.{Digits, to_string_from-Digits, stoi-to_string}

-- Such a character does not occur.
abbrev pub Without : ℕ → Bytes → Type 0
Without c [] = Unit {0}
Without c (x ∷ xs) = ((x == c) ≡ false) × Without c xs

Without-append : (c : ℕ) (xs ys : Bytes) → Without c xs → Without c ys → Without c (xs ++ ys)
Without-append c [] ys v w = w
Without-append c (x ∷ xs) ys v w = (v.0, Without-append c xs ys v.1 w)

Digits-Without : (xs : Bytes) → Digits xs → Without 44 xs
Digits-Without [] d = tt
Digits-Without (x ∷ xs) d = let h = d.0 in (ground arith, Digits-Without xs d.1)

find_char-none : (c : ℕ) (xs : Bytes) → Without c xs → find_char c xs ≡ none
unfolding find_char
find_char-none c [] w = refl
find_char-none c (x ∷ xs) w = rw (w.0, find_char-none c xs w.1) refl

find_char-some :
    (c : ℕ) (xs ys : Bytes) → Without c xs → find_char c (xs ++ c ∷ ys) ≡ some (length xs)
unfolding find_char
find_char-some c [] ys w = let e : (c == c) ≡ true = ground arith in rw e refl
find_char-some c (x ∷ xs) ys w = rw (w.0, find_char-some c xs ys w.1) refl

drop-append_next : (xs ys : Bytes) (c : ℕ) → drop (length xs + 1) (xs ++ c ∷ ys) ≡ ys
drop-append_next [] ys c = refl
drop-append_next (x ∷ xs) ys c =
    let more : suc (length xs) + 1 ≡ suc (length xs + 1) = omega arith in
    ap (λ n. drop n (x ∷ (xs ++ c ∷ ys))) more ∙ drop-append_next xs ys c

-- "ip:count"
abbrev pub server_text : Bytes × ℕ → Bytes
server_text (ip, count) = ip ++ 58 ∷ to_string count

-- "ip:count,ip:count"
abbrev pub servers_text : Bytes × ℕ → List (Bytes × ℕ) → Bytes
servers_text p [] = server_text p
servers_text p (q ∷ ps) = server_text p ++ 44 ∷ servers_text q ps

-- An address without a colon and a comma, and a count that fits an `int`.
abbrev pub Fits : Bytes × ℕ → Type 0
Fits (ip, count) = Without 58 ip × Without 44 ip × (count < 2147483648)

abbrev pub AllFit : List (Bytes × ℕ) → Type 0
AllFit [] = Unit {0}
AllFit (p ∷ ps) = Fits p × AllFit ps

abbrev pub counts : List (Bytes × ℕ) → List (Bytes × ℤ)
counts ps = map (λ (p : Bytes × ℕ). (p.0, pos p.1)) ps

server_ip_count-text :
    (p : Bytes × ℕ) → Fits p → server_ip_count (server_text p) ≡ ok (p.0, pos p.1)
unfolding server_ip_count
server_ip_count-text (ip, count) (colon, comma, small) =
    rw
      (
        server_ip_count,
        find_char-some 58 ip (to_string count) colon,
        take-append_self ip (58 ∷ to_string count),
        drop-append_next ip (to_string count) 58,
        stoi-to_string count small,
      )
      refl

server_text-Without : (p : Bytes × ℕ) → Fits p → Without 44 (server_text p)
unfolding to_string
server_text-Without (ip, count) (colon, comma, small) =
    Without-append 44 ip (58 ∷ to_string count) comma
      (refl, Digits-Without (to_string count) (to_string_from-Digits (suc count) count))

server_list_from-text :
    (p : Bytes × ℕ) (ps : List (Bytes × ℕ)) (rounds : ℕ)
    → AllFit (p ∷ ps)
    → length ps < rounds
    → server_list_from rounds (servers_text p ps) ≡ ok (counts (p ∷ ps))
unfolding server_list_from
server_list_from-text p ps zero f l = absurd (omega (arith, l))
server_list_from-text p [] (suc rounds) f l =
    rw
      (
        server_list_from,
        find_char-none 44 (server_text p) (server_text-Without p f.0),
        server_ip_count-text p (f.0),
      )
      refl
server_list_from-text p (q ∷ ps) (suc rounds) f l =
    let ih = server_list_from-text q ps rounds f.1 (omega (arith, l)) in
    rw
      (
        server_list_from,
        find_char-some 44 (server_text p) (servers_text q ps) (server_text-Without p f.0),
        take-append_self (server_text p) (44 ∷ servers_text q ps),
        drop-append_next (server_text p) (servers_text q ps) 44,
        server_ip_count-text p (f.0),
        ih,
      )
      refl

length-servers_text :
    (p : Bytes × ℕ) (ps : List (Bytes × ℕ)) → length ps ≤ length (servers_text p ps)
length-servers_text p [] = omega arith
length-servers_text p (q ∷ ps) =
    omega (arith, length-append (server_text p) (44 ∷ servers_text q ps), length-servers_text q ps)

-- The text "ip:count,ip:count" of a list of at least one server is read as that list, whatever its
-- length. The addresses have no colon and no comma, and the counts fit an `int`.
pub server_list-round_trip :
    (p : Bytes × ℕ) (ps : List (Bytes × ℕ))
    → AllFit (p ∷ ps)
    → server_list (servers_text p ps) ≡ ok (counts (p ∷ ps))
unfolding server_list
server_list-round_trip p ps f =
    server_list_from-text p ps (suc (length (servers_text p ps))) f
      (omega (arith, length-servers_text p ps))
