-- ===== src/Examples/Records.antt =====
-- The theorems on the middleware and its client, at a capsule without a version.
use dcfs_client.Base.{
  ◌≡◌, ◌≢◌, ◌⊎◌, refl, List, [], ◌∷◌, Bytes, length, replicate, bytes_eq, ok, err, err_not_found,
}
use dcfs_client.Cache.{BufDesc}
use dcfs_client.Mid.{latest, find}
use dcfs_client.Mid.Payload.{split_hashes, join_hashes}
use dcfs_client.Mid.Payload.RoundTrip.{split-join}
use dcfs_client.Mid.Modify.{check_signature, modify, modify_latest, modify_args}
use dcfs_client.Mid.Safety.{Ends, modify_stale, modify-Ends}
use dcfs_client.Backend.{sign_args, write_record}
use dcfs_client.Backend.Signed.{after_signing, write_record_verifies}
use dcfs_client.Examples.Toy.{toy_ssl-IsSigner, toy_env, toy_mid}

abbrev two_hashes : List Bytes
two_hashes = replicate 32 5 ∷ replicate 32 6 ∷ []

split-join_example :
    split_hashes (length (join_hashes two_hashes)) (join_hashes two_hashes) 0 ≡ two_hashes
split-join_example = split-join two_hashes (refl, (refl, tt))

abbrev block : BufDesc
block = record { buf = 1 ∷ 2 ∷ []; file_offset = 0 }

modify-Ends_example :
    Ends toy_env
      (7 ∷ [])
      toy_mid
      (modify toy_env (7 ∷ []) (block ∷ []) [] (replicate 16 9) (1 ∷ []) toy_mid)
modify-Ends_example = modify-Ends toy_env (7 ∷ []) (block ∷ []) [] (replicate 16 9) (1 ∷ []) toy_mid

no_version : [] ≡ latest (8 ∷ []) toy_mid.index
unfolding latest find bytes_eq
no_version = refl

another_version : (3 ∷ []) ≢ latest (7 ∷ []) toy_mid.index
unfolding latest find bytes_eq
another_version e = cc

modify_stale_example :
    let (r, n) = modify toy_env (7 ∷ []) (block ∷ []) (3 ∷ []) (replicate 16 9) (1 ∷ []) toy_mid in
    let check =
      check_signature toy_env
        (modify_args (7 ∷ []) (block ∷ []) (3 ∷ []) (replicate 16 9))
        (1 ∷ []) in
    ((check ≡ ok tt) × (r ≡ err err_not_found) ⊎ (check ≢ ok tt) × (r ≡ check))
    × (n.server ≡ toy_mid.server)
    × ((k : Bytes) → latest k n.index ≡ latest k toy_mid.index)
modify_stale_example =
    modify_stale toy_env (7 ∷ []) (block ∷ []) (3 ∷ []) (replicate 16 9) (1 ∷ []) toy_mid
      another_version

write_record_verifies_example :
    write_record toy_env (7 ∷ []) (block ∷ []) [] (replicate 16 9) toy_mid
    ≡ after_signing toy_env toy_ssl-IsSigner
        (sign_args toy_env (modify_args (7 ∷ []) (block ∷ []) [] (replicate 16 9)))
        (modify_latest toy_env (7 ∷ []) (block ∷ []) [] (replicate 16 9))
        toy_mid
write_record_verifies_example =
    write_record_verifies toy_env toy_ssl-IsSigner (7 ∷ []) block [] [] (replicate 16 9) toy_mid
