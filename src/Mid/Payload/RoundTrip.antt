-- ===== src/Mid/Payload/RoundTrip.antt =====
-- The payloads of inode and block map records read back what was written.
use dcfs_client.Base.{
  ℕ, zero, suc, ◌+◌, ◌/◌, ◌%◌, ◌^◌, ◌≤◌, ◌<◌, ◌≡◌, refl, sym, ap, ap₂, ◌∙◌, true, false, List, [],
  ◌∷◌, ◌++◌, Bytes, length, get_or, length-append, Memory, of_bytes, bytes_at, length-bytes_at,
  get_or-bytes_at, ltb, arith,
}
use native.Mathlib.Nat.{pow-suc}
use mathlib.Core.List.{append_assoc, append-nil}
use dcfs_client.Cache.{hashlen}
use dcfs_client.Mid.Payload.{encode_word, decode_word, split_hashes, join_hashes, inode_payload}

get_or-append_left : (xs ys : Bytes) (i : ℕ) → i < length xs → get_or (xs ++ ys) i 0 ≡ get_or xs i 0
get_or-append_left [] ys i h = absurd (omega arith)
get_or-append_left (x ∷ xs) ys zero h = refl
get_or-append_left (x ∷ xs) ys (suc i) h = get_or-append_left xs ys i (omega arith)

get_or-append_right : (xs ys : Bytes) (i : ℕ) → get_or (xs ++ ys) (length xs + i) 0 ≡ get_or ys i 0
get_or-append_right [] ys i = ap (λ (j : ℕ). get_or ys j 0) (omega arith)
get_or-append_right (x ∷ xs) ys i =
    let e : suc (length xs) + i ≡ suc (length xs + i) = omega arith in
    ap (λ (j : ℕ). get_or (x ∷ (xs ++ ys)) j 0) e ∙ get_or-append_right xs ys i

-- Memory that holds `xs` at `s` reads as `xs` there.
bytes_at-holds :
    (m : Memory) (s : ℕ) (xs : Bytes)
    → ((j : ℕ) → j < length xs → m (s + j) ≡ get_or xs j 0)
    → bytes_at m s (length xs) ≡ xs
unfolding bytes_at
bytes_at-holds m s [] h = refl
bytes_at-holds m s (x ∷ xs) h =
    ap₂ ◌∷◌ (ap m (omega arith) ∙ h 0 (omega arith))
      (bytes_at-holds m (s + 1) xs (λ j l. ap m (omega arith) ∙ h (suc j) (omega arith)))

-- A part of a byte string, read at its place.
pub bytes_at-part :
    (pre xs post : Bytes) → bytes_at (of_bytes (pre ++ (xs ++ post))) (length pre) (length xs) ≡ xs
bytes_at-part pre xs post = bytes_at-holds (of_bytes (pre ++ (xs ++ post))) (length pre) xs λ j l.
    unfold of_bytes in get_or-append_right pre (xs ++ post) j ∙ get_or-append_left xs post j l

pub length-encode_word : (k n : ℕ) → length (encode_word k n) ≡ k
unfolding encode_word
length-encode_word zero n = refl
length-encode_word (suc k) n = ap suc (length-encode_word k (n / 256))

pub bytes_at-ext :
    (a b : Memory) (s t k : ℕ)
    → ((j : ℕ) → j < k → a (s + j) ≡ b (t + j))
    → bytes_at a s k ≡ bytes_at b t k
unfolding bytes_at
bytes_at-ext a b s t zero h = refl
bytes_at-ext a b s t (suc k) h =
    ap₂ ◌∷◌ (ap a (omega arith) ∙ h 0 (omega arith) ∙ ap b (omega arith)) (
      bytes_at-ext a b (s + 1) (t + 1) k
        λ j l. ap a (omega arith) ∙ h (suc j) (omega arith) ∙ ap b (omega arith))

decode-holds :
    (k n i : ℕ) (m : Memory)
    → n < 256 ^ k
    → ((j : ℕ) → j < k → m (i + j) ≡ get_or (encode_word k n) j 0)
    → decode_word k m i ≡ n
unfolding encode_word decode_word
decode-holds zero n i m l h = omega arith
decode-holds (suc k) n i m l h =
    let e : m i ≡ n % 256 = ap m (omega arith) ∙ h 0 (omega arith) in
    let r =
      decode-holds k (n / 256) (i + 1) m (omega (arith, pow-suc 256 k))
        (λ j p. ap m (omega arith) ∙ h (suc j) (omega arith)) in
    omega (arith, e, r)

decode-inode_payload :
    (isize : ℕ) (key : Bytes)
    → isize < 2 ^ 64
    → decode_word 8 (of_bytes (inode_payload isize key)) 0 ≡ isize
unfolding inode_payload of_bytes
decode-inode_payload isize key l =
    decode-holds 8 isize 0 (of_bytes (inode_payload isize key)) l λ j p.
      ap (of_bytes (inode_payload isize key)) (omega arith)
      ∙ get_or-append_left (encode_word 8 isize) _ j (omega (arith, length-encode_word 8 isize))

pub bytes_at-whole : (xs : Bytes) → bytes_at (of_bytes xs) 0 (length xs) ≡ xs
unfolding of_bytes
bytes_at-whole xs =
    bytes_at-holds (of_bytes xs) 0 xs λ j l. ap (λ (i : ℕ). get_or xs i 0) (omega arith)

pub bytes_at-exact : (xs : Bytes) (n : ℕ) → length xs ≡ n → bytes_at (of_bytes xs) 0 n ≡ xs
bytes_at-exact xs n e = ap (bytes_at (of_bytes xs) 0) (sym e) ∙ bytes_at-whole xs

pub length-inode_payload : (isize : ℕ) (key : Bytes) → length (inode_payload isize key) ≡ 40
unfolding inode_payload
length-inode_payload isize key = omega (
  arith,
  length-append (encode_word 8 isize) (bytes_at (of_bytes key) 0 32),
  length-encode_word 8 isize,
  length-bytes_at (of_bytes key) 0 32,
)

key-inode_payload :
    (isize : ℕ) (key : Bytes)
    → length key ≡ 32
    → bytes_at (of_bytes (inode_payload isize key)) 8 32 ≡ key
unfolding inode_payload
key-inode_payload isize key l =
    let head = encode_word 8 isize in
    let same : head ++ bytes_at (of_bytes key) 0 32 ≡ head ++ (key ++ []) =
      ap (◌++◌ head) (bytes_at-exact key 32 l ∙ sym (append-nil key)) in
    ap (λ (p : Bytes). bytes_at (of_bytes p) 8 32) same
    ∙ ap₂ (bytes_at (of_bytes (head ++ (key ++ [])))) (sym (length-encode_word 8 isize)) (sym l)
    ∙ bytes_at-part head key []

-- The payload of an inode record that is made of a size below 2^64 and of 32 bytes of encrypted key
-- is read back, by the client's own offsets, as that size and that key.
pub read-inode_payload :
    (isize : ℕ) (key : Bytes)
    → isize < 2 ^ 64
    → length key ≡ 32
    → (decode_word 8 (of_bytes (inode_payload isize key)) 0 ≡ isize)
      × (bytes_at (of_bytes (inode_payload isize key)) 8 32 ≡ key)
read-inode_payload isize key l e = (decode-inode_payload isize key l, key-inode_payload isize key e)

-- A shorter read at the same place gives the beginning of a longer one.
pub half_key :
    (isize : ℕ) (key : Bytes)
    → isize < 2 ^ 64
    → length key ≡ 32
    → bytes_at (of_bytes (inode_payload isize key)) 8 16 ≡ bytes_at (of_bytes key) 0 16
half_key isize key l e =
    let payload = of_bytes (inode_payload isize key) in
    let whole : bytes_at payload 8 32 ≡ key = key-inode_payload isize key e in
    bytes_at-ext payload (of_bytes key) 8 0 16 λ j s.
      unfold of_bytes in
      sym (get_or-bytes_at payload 8 32 j (omega arith))
      ∙ ap (λ (b : Bytes). get_or b j 0) whole
      ∙ ap (λ (i : ℕ). get_or key i 0) (omega arith)

abbrev pub AllHashes : List Bytes → Type 0
AllHashes [] = Unit {0}
AllHashes (x ∷ xs) = (length x ≡ hashlen) × AllHashes xs

split-join_at :
    (hs : List Bytes) (fuel : ℕ) (before : Bytes)
    → AllHashes hs
    → length hs ≤ fuel
    → split_hashes fuel (before ++ join_hashes hs) (length before) ≡ hs
unfolding split_hashes join_hashes
split-join_at [] zero before a l = refl
split-join_at [] (suc fuel) before a l =
    let t : ltb (length before) (length (before ++ [])) ≡ false =
      ground (arith, ap length (append-nil before)) in
    rw t refl
split-join_at (x ∷ hs) zero before a l = absurd (omega arith)
split-join_at (x ∷ hs) (suc fuel) before a l =
    let h = bytes_at (of_bytes x) 0 hashlen in
    let rest = join_hashes hs in
    let size : length h ≡ hashlen = length-bytes_at (of_bytes x) 0 hashlen in
    let t : ltb (length before) (length (before ++ (h ++ rest))) ≡ true =
      ground (arith, length-append before (h ++ rest), length-append h rest, size) in
    let there : length before + hashlen ≡ length (before ++ h) =
      omega (arith, length-append before h, size) in
    let whole = sym (append_assoc before h rest) in
    rw t (
      ap₂ ◌∷◌
        (ap (bytes_at (of_bytes (before ++ (h ++ rest))) (length before)) (sym size)
          ∙ bytes_at-part before h rest
          ∙ bytes_at-exact x hashlen a.0)
        (ap₂ (split_hashes fuel) whole there
          ∙ split-join_at hs fuel (before ++ h) a.1 (omega arith)))

length-join_hashes : (hs : List Bytes) → length hs ≤ length (join_hashes hs)
unfolding join_hashes
length-join_hashes [] = omega arith
length-join_hashes (x ∷ hs) = omega (
  arith,
  length-join_hashes hs,
  length-append (bytes_at (of_bytes x) 0 hashlen) (join_hashes hs),
  length-bytes_at (of_bytes x) 0 hashlen,
)

-- A block map that was written from hashes of 32 bytes each is read back as those hashes, in order;
-- the payload's length is fuel enough for the reading loop.
pub split-join :
    (hs : List Bytes)
    → AllHashes hs
    → split_hashes (length (join_hashes hs)) (join_hashes hs) 0 ≡ hs
split-join hs a = split-join_at hs (length (join_hashes hs)) [] a (length-join_hashes hs)
