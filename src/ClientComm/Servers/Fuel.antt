-- ===== src/ClientComm/Servers/Fuel.antt =====
-- The loop over the commas of the server list ends within the rounds that it is given, on any text.
use dcfs_client.Base.{
  ℕ, zero, suc, ◌+◌, ◌≤◌, ◌<◌, ◌≡◌, refl, ap, some, [], ◌∷◌, Bytes, drop, length, arith, inl, inr,
  Option-cases,
}
use dcfs_client.ClientComm.Servers.{find_char, server_list_from, server_list}

length-drop : (n : ℕ) (xs : Bytes) → length (drop n xs) ≤ length xs
length-drop zero xs = omega arith
length-drop (suc n) [] = omega arith
length-drop (suc n) (x ∷ xs) = omega (arith, length-drop n xs)

drop-next : (n : ℕ) (x : ℕ) (xs : Bytes) → length (drop (n + 1) (x ∷ xs)) < length (x ∷ xs)
drop-next n x xs =
    let more : n + 1 ≡ suc n = omega arith in
    omega (arith, length-drop n xs, ap (λ k. length (drop k (x ∷ xs))) more)

find_char-shorter :
    (c next : ℕ) (xs : Bytes) → find_char c xs ≡ some next → length (drop (next + 1) xs) < length xs
unfolding find_char
find_char-shorter c next [] e = cc
find_char-shorter c next (x ∷ xs) e = drop-next next x xs

-- More rounds than characters give what any other such number of rounds gives.
server_list_from_enough :
    (a b : ℕ) (text : Bytes)
    → length text < a
    → length text < b
    → server_list_from a text ≡ server_list_from b text
unfolding server_list_from
server_list_from_enough zero b text l k = absurd (omega (arith, l))
server_list_from_enough (suc a) zero text l k = absurd (omega (arith, k))
server_list_from_enough (suc a) (suc b) text l k = elim (Option-cases (find_char 44 text)) [
  | inl n ↦ rw (server_list_from, n) refl
  | inr (next, n) ↦
      let rest = drop (next + 1) text in
      let short = find_char-shorter 44 next text n in
      let same =
        server_list_from_enough a b rest (omega (arith, short, l)) (omega (arith, short, k)) in
      rw (server_list_from, n, same) refl
]

-- `server_list` is the loop with any more rounds too, so that it never runs out of them.
pub server_list_enough :
    (rounds : ℕ) (text : Bytes)
    → length text < rounds
    → server_list_from rounds text ≡ server_list text
unfolding server_list
server_list_enough rounds text l =
    server_list_from_enough rounds (suc (length text)) text l (omega arith)
