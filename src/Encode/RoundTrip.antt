-- ===== src/Encode/RoundTrip.antt =====
-- Hexadecimal names are read back, and so are those of two different strings different.
use dcfs_client.Base.{
  ℕ, ◌+◌, ◌*◌, ◌/◌, ◌%◌, ◌<◌, ◌≡◌, refl, sym, ap, ap₂, ◌∙◌, false, some, [], ◌∷◌, Bytes, arith,
  ◌==◌,
}
use dcfs_client.Encode.{
  hex_digit, binary_to_hex_string, digit_value, digits, is_space, strtol_char, hex_string_to_binary,
}

-- Every entry is a byte.
abbrev pub AllBytes : Bytes → Type 0
AllBytes [] = Unit {0}
AllBytes (b ∷ bytes) = (b < 256) × AllBytes bytes

digit_value-hex_digit : (d : ℕ) → d < 16 → digit_value (hex_digit d) ≡ some d
digit_value-hex_digit d l = ground arith

strtol_char-hex :
    (d e : ℕ) → d < 16 → e < 16 → strtol_char (hex_digit d ∷ hex_digit e ∷ []) ≡ (d * 16 + e) % 256
unfolding strtol_char
strtol_char-hex d e l k =
    let s : is_space (hex_digit d) ≡ false = ground arith in
    let m : (hex_digit d == 45) ≡ false = ground arith in
    let p : (hex_digit d == 43) ≡ false = ground arith in
    rw (s, m, p, digits, digit_value-hex_digit d l, digit_value-hex_digit e k)
      (ap (λ (n : ℕ). n % 256) (omega arith))

-- The text of a binary string, each entry of which is a byte, is read back as that string.
pub hex-round_trip :
    (bytes : Bytes) → AllBytes bytes → hex_string_to_binary (binary_to_hex_string bytes) ≡ bytes
unfolding hex_string_to_binary binary_to_hex_string
hex-round_trip [] a = refl
hex-round_trip (b ∷ bytes) a =
    let two = strtol_char-hex (b / 16) (b % 16) (omega (arith, a.0)) (omega arith) in
    let whole : (b / 16 * 16 + b % 16) % 256 ≡ b = omega (arith, a.0) in
    ap₂ ◌∷◌ (two ∙ whole) (hex-round_trip bytes a.1)

-- Two binary strings of bytes that have the same text are the same.
pub hex-injective :
    (x y : Bytes)
    → AllBytes x
    → AllBytes y
    → binary_to_hex_string x ≡ binary_to_hex_string y
    → x ≡ y
hex-injective x y a b e = sym (hex-round_trip x a) ∙ ap hex_string_to_binary e ∙ hex-round_trip y b
