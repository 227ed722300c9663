-- ===== src/Crypto/Laws.antt =====
-- What the program relies on of OpenSSL, and what its wrappers then give their callers.
use dcfs_client.Base.{
  ℕ, ◌+◌, ◌≤◌, ◌≡◌, true, false, Option, none, some, ◌++◌, Bytes, length, arith, length-append, ap,
  ap₂, sym, ◌∙◌,
}
use dcfs_client.Crypto.{OpenSsl, hash256, cipher_run, encrypt_symmetric, decrypt_symmetric}

-- AES-128-CBC: what was encrypted under a key and an iv is decrypted under the same.
pub record IsCipher (ssl : OpenSsl) : Type 0 where
  pub ready : (key : Bytes) (iv : Option Bytes) → ssl.decrypt_init key iv ≡ true
  pub round_trip :
      (key : Bytes) (iv : Option Bytes) (plain first last : Bytes)
      → ssl.cipher_update true key iv plain ≡ some first
      → ssl.cipher_final true key iv plain ≡ some last
      → (a b : Bytes) × (ssl.cipher_update false key iv (first ++ last) ≡ some a)
        × (ssl.cipher_final false key iv (first ++ last) ≡ some b)
        × (a ++ b ≡ plain)

-- SHA-256: the digests have 32 bytes.
pub record IsDigest (ssl : OpenSsl) : Type 0 where
  pub sizes : (a d : Bytes) → hash256 ssl a ≡ some d → length d ≡ 32

-- Padding: what is encrypted grows by at most one block of the cipher.
pub record IsPadded (ssl : OpenSsl) : Type 0 where
  pub pads :
      (key : Bytes) (iv : Option Bytes) (plain : Bytes) (n : ℕ)
      → (encrypt_symmetric ssl key iv plain n).success ≡ true
      → length (encrypt_symmetric ssl key iv plain n).out ≤ length plain + 16

-- ECDSA: a signature made with a key pair verifies with it.
pub record IsSigner (ssl : OpenSsl) : Type 0 where
  pub sign_verify :
      (k : ℕ) (d s : Bytes) → ssl.ecdsa_sign k d ≡ some s → ssl.ecdsa_verify k d s ≡ true

module _ {ssl : OpenSsl} (cipher : IsCipher ssl) where
  -- the two steps of an encryption that returned 1
  encrypt_parts :
      (key : Bytes) (iv : Option Bytes) (plain : Bytes) (n : ℕ)
      → (encrypt_symmetric ssl key iv plain n).success ≡ true
      → (first last : Bytes) × (ssl.cipher_update true key iv plain ≡ some first)
        × (ssl.cipher_final true key iv plain ≡ some last)
        × ((encrypt_symmetric ssl key iv plain n).out ≡ first ++ last)
  unfolding encrypt_symmetric
  encrypt_parts key iv plain n h = ground arith

  -- What `encrypt_symmetric` wrote when it returned 1, `decrypt_symmetric` turns back.
  pub decrypt-encrypt :
      (key : Bytes) (iv : Option Bytes) (plain : Bytes) (n m : ℕ)
      → (encrypt_symmetric ssl key iv plain n).success ≡ true
      → (decrypt_symmetric ssl key iv (encrypt_symmetric ssl key iv plain n).out m).out ≡ plain
  unfolding decrypt_symmetric
  decrypt-encrypt key iv plain n m h =
      let (first, last, u, f, e) = encrypt_parts key iv plain n h in
      let (a, b, u', f', e') = cipher.round_trip key iv plain first last u f in
      rw (e, cipher.ready key iv, u', f') e'

  -- With a cipher that decrypts what it encrypted under the same key and iv: of what `encrypt_symmetric` wrote
  -- when it returned 1, `decrypt_symmetric` returns 1, gives the plain bytes, and sets `*outlen` to
  -- their number.
  pub decrypt-encrypt_all :
      (key : Bytes) (iv : Option Bytes) (plain : Bytes) (n m : ℕ)
      → (encrypt_symmetric ssl key iv plain n).success ≡ true
      → decrypt_symmetric ssl key iv (encrypt_symmetric ssl key iv plain n).out m
        ≡ record { success = true; out = plain; outlen = length plain }
  unfolding decrypt_symmetric
  decrypt-encrypt_all key iv plain n m h =
      let (first, last, u, f, e) = encrypt_parts key iv plain n h in
      let (a, b, u', f', e') = cipher.round_trip key iv plain first last u f in
      let l = sym (length-append a b) ∙ ap length e' in
      rw (e, cipher.ready key iv, u', f')
        (ap₂ (λ (o : Bytes) (k : ℕ). record { success = true; out = o; outlen = k }) e' l)

outlen-run :
    (ssl : OpenSsl) (first last : Option Bytes) (n : ℕ)
    → (cipher_run ssl first last n).success ≡ true
    → (cipher_run ssl first last n).outlen ≡ length (cipher_run ssl first last n).out
unfolding cipher_run
outlen-run ssl none last n h = cc
outlen-run ssl (some a) none n h = cc
outlen-run ssl (some a) (some b) n h = sym (length-append a b)

-- `*outlen` of an encryption that returned 1 is the number of bytes written.
pub outlen-encrypt :
    (ssl : OpenSsl) (key : Bytes) (iv : Option Bytes) (plain : Bytes) (n : ℕ)
    → (encrypt_symmetric ssl key iv plain n).success ≡ true
    → (encrypt_symmetric ssl key iv plain n).outlen
      ≡ length (encrypt_symmetric ssl key iv plain n).out
unfolding encrypt_symmetric
outlen-encrypt ssl key iv plain n h =
    outlen-run ssl (ssl.cipher_update true key iv plain) (ssl.cipher_final true key iv plain) n h
