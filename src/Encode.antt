-- ===== src/Encode.antt =====
-- util/encode.cpp: binary strings as hexadecimal text, which names the files of the simulated server.
-- `snprintf` with "%02x" and `strtol` with base 16 are written out as far as they are used.
pub mod RoundTrip
use dcfs_client.Base.{
  ℕ, zero, suc, ◌+◌, ◌-◌, ◌*◌, ◌/◌, ◌%◌, Bool, true, false, ◌&&◌, ◌||◌, Option, none, some, List,
  [], ◌∷◌, Bytes, ltb, leb, ◌==◌, if◌then◌else◌,
}

-- 0 to 9 and a to f
abbrev pub hex_digit : ℕ → ℕ
hex_digit d = if ltb d 10 then 48 + d else 87 + d

unfoldable pub binary_to_hex_string : Bytes → Bytes
binary_to_hex_string [] = []
binary_to_hex_string (b ∷ bytes) =
    hex_digit (b / 16) ∷ hex_digit (b % 16) ∷ binary_to_hex_string bytes

-- A digit of `strtol`: 0 to 9, A to F, a to f.
abbrev pub digit_value : ℕ → Option ℕ
digit_value c =
    if leb 48 c && leb c 57
    then some (c - 48)
    else if leb 65 c && leb c 70
    then some (c - 55)
    else if leb 97 c && leb c 102
    then some (c - 87)
    else none

-- Digits up to the first character that is none.
abbrev pub digits : ℕ → Bytes → ℕ
digits n [] = n
digits n (c ∷ cs) =
    let more = λ (d : ℕ). digits (n * 16 + d) cs in
    elim (digit_value c) [ none ↦ n | some d ↦ more d ]

abbrev pub is_space : ℕ → Bool
is_space c = c == 32 || (leb 9 c && leb c 13)

-- A sign, or none. What is negative is taken modulo 2^8, as the cast to `char` does.
abbrev pub signed_digits : Bytes → ℕ
signed_digits [] = 0
signed_digits (c ∷ cs) =
    if c == 45
    then (256 - digits 0 cs % 256) % 256
    else if c == 43
    then digits 0 cs % 256
    else digits 0 (c ∷ cs) % 256

-- `(char) (int) strtol(text, NULL, 16)`, as the byte. A prefix "0x" of so short a text adds nothing.
unfoldable pub strtol_char : Bytes → ℕ
strtol_char [] = 0
strtol_char (c ∷ cs) =
    let rest = strtol_char cs in if is_space c then rest else signed_digits (c ∷ cs)

-- Two characters a round; the last round of a text of odd length has one.
unfoldable pub hex_string_to_binary : Bytes → Bytes
hex_string_to_binary [] = []
hex_string_to_binary (a ∷ []) = strtol_char (a ∷ []) ∷ []
hex_string_to_binary (a ∷ b ∷ hex) = strtol_char (a ∷ b ∷ []) ∷ hex_string_to_binary hex
