-- ===== src/Backend/Signed.antt =====
-- The client signs what the middleware verifies.
use dcfs_client.Base.{
  ◌≡◌, refl, List, ◌∷◌, Bytes, Outcome, continue, ok, err, fault, arith, Option-cases, inl, inr,
}
use dcfs_client.Crypto.{hash256, sign, verify}
use dcfs_client.Crypto.Laws.{IsSigner}
use dcfs_client.Cache.{BufDesc}
use dcfs_client.Mid.{Env, Mid}
use dcfs_client.Mid.Modify.{modify, modify_latest, modify_args, check_signature}
use dcfs_client.Backend.{sign_args, write_record}

module _ {S : Type 0} (env : Env S) (signer : IsSigner env.ssl) where
  -- A signature that the client made of some arguments verifies for the same arguments.
  pub check-sign :
      (args sig : Bytes) → sign_args env args ≡ ok sig → check_signature env args sig ≡ ok tt
  unfolding sign_args check_signature sign verify
  check-sign args sig e = elim (Option-cases (hash256 env.ssl args)) [
    | inl h ↦ ground arith
    | inr (d, h) ↦ elim (Option-cases env.client_key) [
      | inl k ↦ ground arith
      | inr (k, q) ↦ ground (arith, signer.sign_verify k d sig)
    ]
  ]

  abbrev pub after_signing :
      Outcome Bytes → (Mid S → Outcome (Unit {0}) × Mid S) → Mid S → Outcome (Unit {0}) × Mid S
  after_signing (ok sig) body m = body m
  after_signing (err e) body m = (err e, m)
  after_signing fault body m = (fault, m)

  -- When what is signed with a key pair verifies with it: a write of at least one block fails at the
  -- client's own signing, with nothing changed, or it gets past the middleware's check, and is then
  -- `Modify` without its signature test.
  pub write_record_verifies :
      (dcname : Bytes) (d : BufDesc) (ds : List BufDesc) (inode_recordname aes_key : Bytes)
      (m : Mid S)
      → write_record env dcname (d ∷ ds) inode_recordname aes_key m
        ≡ after_signing
            (sign_args env (modify_args dcname (d ∷ ds) inode_recordname aes_key))
            (modify_latest env dcname (d ∷ ds) inode_recordname aes_key)
            m
  unfolding write_record modify
  write_record_verifies dcname d ds inode_recordname aes_key m =
      by_signature (sign_args env args) refl
    where
      args : Bytes
      args = modify_args dcname (d ∷ ds) inode_recordname aes_key

      by_signature :
          (r : Outcome Bytes)
          → sign_args env args ≡ r
          → continue r (modify env dcname (d ∷ ds) inode_recordname aes_key) m
            ≡ after_signing r (modify_latest env dcname (d ∷ ds) inode_recordname aes_key) m
      by_signature (ok sig) e = rw (check-sign args sig e) refl
      by_signature (err x) e = refl
      by_signature fault e = refl
