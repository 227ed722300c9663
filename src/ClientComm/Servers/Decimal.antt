-- ===== src/ClientComm/Servers/Decimal.antt =====
-- Decimal numbers are read back.
use dcfs_client.Base.{
  ℕ, zero, suc, ◌+◌, ◌-◌, ◌*◌, ◌/◌, ◌%◌, ◌≤◌, ◌<◌, ◌≡◌, refl, sym, ap, ◌∙◌, true, false, [], ◌∷◌,
  ◌++◌, Bytes, ltb, ◌==◌, ok, arith, inl, inr, Bool-cases, subst,
}
use dcfs_client.Encode.{is_space}
use dcfs_client.ClientComm.Servers.{
  pos, is_digit, decimal, to_int, unsigned_int, signed_int, stoi, to_string_from, to_string,
}

-- Every character is a digit.
abbrev pub Digits : Bytes → Type 0
Digits [] = Unit {0}
Digits (c ∷ cs) = (is_digit c ≡ true) × Digits cs

Digits-snoc : (cs : Bytes) (d : ℕ) → Digits cs → is_digit d ≡ true → Digits (cs ++ d ∷ [])
Digits-snoc [] d ds e = (e, tt)
Digits-snoc (c ∷ cs) d ds e = (ds.0, Digits-snoc cs d ds.1 e)

decimal-snoc :
    (cs : Bytes) (n d : ℕ)
    → Digits cs
    → is_digit d ≡ true
    → decimal n (cs ++ d ∷ []) ≡ decimal n cs * 10 + (d - 48)
unfolding decimal
decimal-snoc [] n d ds e = rw e refl
decimal-snoc (c ∷ cs) n d ds e = rw (ds.0) (decimal-snoc cs (n * 10 + (c - 48)) d ds.1 e)

pub to_string_from-Digits : (fuel n : ℕ) → Digits (to_string_from fuel n)
unfolding to_string_from
to_string_from-Digits zero n = tt
to_string_from-Digits (suc fuel) n = elim (Bool-cases (ltb n 10)) [
  | inl t ↦ let d : is_digit (48 + n) ≡ true = ground arith in rw (to_string_from, t) (d, tt)
  | inr t ↦
      let d : is_digit (48 + n % 10) ≡ true = ground arith in
      rw (to_string_from, t)
        (Digits-snoc (to_string_from fuel (n / 10)) (48 + n % 10)
          (to_string_from-Digits fuel (n / 10)) d)
]

decimal-to_string : (fuel n : ℕ) → n < fuel → decimal 0 (to_string_from fuel n) ≡ n
unfolding to_string_from decimal
decimal-to_string zero n l = omega (arith, l)
decimal-to_string (suc fuel) n l = elim (Bool-cases (ltb n 10)) [
  | inl t ↦
      let d : is_digit (48 + n) ≡ true = ground arith in rw (to_string_from, t, d) (omega arith)
  | inr t ↦
      let d : is_digit (48 + n % 10) ≡ true = ground arith in
      let big : 10 ≤ n = ground arith in
      let ih = decimal-to_string fuel (n / 10) (omega (arith, big, l)) in
      rw
        (
          to_string_from,
          t,
          decimal-snoc (to_string_from fuel (n / 10)) 0 (48 + n % 10)
              (to_string_from-Digits fuel (n / 10)) d,
          ih,
        )
        (omega arith)
]

-- A number has a first digit.
to_string-first : (n : ℕ) → (c : ℕ) × (cs : Bytes) × (to_string n ≡ c ∷ cs)
unfolding to_string to_string_from
to_string-first n = elim (Bool-cases (ltb n 10)) [
  | inl t ↦ (48 + n, [], rw t refl)
  | inr t ↦ let (c, cs, e) = snoc-first (to_string_from n (n / 10)) (48 + n % 10) in (c, cs, rw t e)
]
  where
    snoc-first : (xs : Bytes) (d : ℕ) → (c : ℕ) × (cs : Bytes) × (xs ++ d ∷ [] ≡ c ∷ cs)
    snoc-first [] d = (d, [], refl)
    snoc-first (x ∷ xs) d = (x, xs ++ d ∷ [], refl)

stoi-digits :
    (c : ℕ) (cs : Bytes) (n : ℕ)
    → is_digit c ≡ true
    → decimal 0 (c ∷ cs) ≡ n
    → n < 2147483648
    → stoi (c ∷ cs) ≡ ok (pos n)
unfolding stoi
stoi-digits c cs n d e l =
    let s : is_space c ≡ false = ground arith in
    let m : (c == 45) ≡ false = ground arith in
    let p : (c == 43) ≡ false = ground arith in
    let fits : ltb n 2147483648 ≡ true = ground arith in
    rw (stoi, s, signed_int, m, p, unsigned_int, d, e, to_int, fits) refl

-- A number that fits an `int` is read back from its decimal text.
pub stoi-to_string : (n : ℕ) → n < 2147483648 → stoi (to_string n) ≡ ok (pos n)
unfolding to_string
stoi-to_string n l =
    let (c, cs, e) = to_string-first n in
    let ds : Digits (c ∷ cs) = subst Digits e (to_string_from-Digits (suc n) n) in
    let is : decimal 0 (c ∷ cs) ≡ n =
      ap (decimal 0) (sym e) ∙ decimal-to_string (suc n) n (omega arith) in
    ap stoi e ∙ stoi-digits c cs n ds.0 is l
