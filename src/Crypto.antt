-- ===== src/Crypto.antt =====
-- util/crypto.cpp: the wrappers over OpenSSL. OpenSSL itself is the parameter `OpenSsl`, each call
-- a function of what it is given. The builds with NO_ENC or NO_SIGN are not modelled.
pub mod Laws
use dcfs_client.Base.{
  ℕ, ◌+◌, ◌≡◌, Bool, true, false, Option, none, some, List, ◌++◌, Bytes, length, if◌then◌else◌,
}

-- What the program calls. `none` and `false` stand for OpenSSL's failure codes. The context of a
-- cipher X key of a signature is a number that names the key pair.
pub record OpenSsl : Type 0 where
  pub sha256_init : Bool
  pub sha256_update : Bytes → Bool
  pub sha256_final : Bytes → Option Bytes
  pub ecdsa_sign : ℕ → Bytes → Option Bytes
  pub ecdsa_verify : ℕ → Bytes → Bytes → Bool
  pub decrypt_init : Bytes → Option Bytes → Bool
  pub cipher_update : Bool → Bytes → Option Bytes → Bytes → Option Bytes
  pub cipher_final : Bool → Bytes → Option Bytes → Bytes → Option Bytes

-- What generates keys: for the k-th call, the EC_KEY that `EC_KEY_new_by_curve_name` makes, `none` for
-- NULL; whether `EC_KEY_generate_key` succeeds; what `RAND_bytes` leaves in a buffer of 16 bytes.
pub record KeyGen : Type 0 where
  pub new_by_curve_name : ℕ → Option ℕ
  pub generate_key : ℕ → Bool
  pub rand_bytes : ℕ → Bytes

-- `generate_ECDSA_key` with a place for the key: whether it returned 0, and what `*ec_key` then is.
unfoldable pub generate_ecdsa_key : KeyGen → ℕ → Bool × Option ℕ
generate_ecdsa_key gen k = elim (gen.new_by_curve_name k) [
  | none ↦ (false, none)
  | some key ↦ (gen.generate_key k, some key)
]

-- What `generate_symmetric_key` leaves in the buffer; no caller tests what it returns.
abbrev pub generate_symmetric_key : KeyGen → ℕ → Bytes
generate_symmetric_key gen k = gen.rand_bytes k

-- What `encrypt_symmetric` and `decrypt_symmetric` leave behind: whether they returned 1, what they
-- wrote to `outbuf`, and `*outlen`.
pub record Ciphered : Type 0 where
  pub success : Bool
  pub out : Bytes
  pub outlen : ℕ

module _ (ssl : OpenSsl) where
  -- `none` is NULL.
  unfoldable pub hash256 : Bytes → Option Bytes
  hash256 d =
      if ssl.sha256_init then (if ssl.sha256_update d then ssl.sha256_final d else none) else none

  unfoldable pub sign : Option ℕ → Bytes → Option Bytes
  sign none d = none
  sign (some k) d = ssl.ecdsa_sign k d

  unfoldable pub verify : Option ℕ → Bytes → Bytes → Bool
  verify none d s = false
  verify (some k) d s = ssl.ecdsa_verify k d s

  cipher_end : Bytes → Option Bytes → Ciphered
  cipher_end first none = record { success = false; out = first; outlen = length first }
  cipher_end first (some last) = record {
    success = true;
    out = first ++ last;
    outlen = length first + length last;
  }

  -- `outlen` is the caller's value, kept when the first step fails.
  cipher_run : Option Bytes → Option Bytes → ℕ → Ciphered
  unfolding cipher_end
  cipher_run none last outlen = record { success = false; out = List.[]; outlen = outlen }
  cipher_run (some first) last outlen = cipher_end first last

  unfoldable pub encrypt_symmetric : Bytes → Option Bytes → Bytes → ℕ → Ciphered
  unfolding cipher_run
  encrypt_symmetric key iv inbuf outlen =
      cipher_run (ssl.cipher_update true key iv inbuf) (ssl.cipher_final true key iv inbuf) outlen

  unfoldable pub decrypt_symmetric : Bytes → Option Bytes → Bytes → ℕ → Ciphered
  unfolding cipher_run
  decrypt_symmetric key iv inbuf outlen =
      if ssl.decrypt_init key iv
      then cipher_run (ssl.cipher_update false key iv inbuf) (ssl.cipher_final false key iv inbuf)
          outlen
      else record { success = false; out = List.[]; outlen = outlen }
