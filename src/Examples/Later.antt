-- ===== src/Examples/Later.antt =====
-- The theorem on the key of a second version, with the digests that are numbers.
use dcfs_client.Base.{◌*◌, ◌≡◌, refl, [], ◌∷◌, bytes_at, bytes_eq, of_bytes, arith, ok}
use dcfs_client.Crypto.{hash256, encrypt_symmetric}
use dcfs_client.Mid.{Mid, latest, find, assign, touch, compose_record, put_record, get_pdu}
use dcfs_client.Mid.Modify.{
  modify_latest, push_version, current_records, push_blocks, push_record, last_name, push_blockmap,
  push_inode, second_prevhash, new_isize, sealed_key,
}
use dcfs_client.Mid.Payload.{
  default_block_size, inode_payload, encode_word, join_hashes, put_hashes, split_hashes,
}
use dcfs_client.Capsule.{record_type_to_string}
use dcfs_client.Backend.{FileMeta, read_file_meta}
use dcfs_client.Backend.Later.{half_of_sealed, second_version-key}
use dcfs_client.Examples.Toy.{Store, toy_mid}
use dcfs_client.Examples.Versions.{a_block, key_16}
use dcfs_client.Examples.Numbers.{number_env, number_env-IsReadable, number_ssl-IsDigest}
use dcfs_client.Examples.Reopened.{no_version, sign_name}

abbrev once : Mid Store
once = (modify_latest number_env (7 ∷ []) (a_block ∷ []) [] key_16 toy_mid).1

abbrev twice : Mid Store
twice =
    (modify_latest number_env (7 ∷ []) (a_block ∷ []) (latest (7 ∷ []) once.index) key_16 once).1

makes_first : modify_latest number_env (7 ∷ []) (a_block ∷ []) [] key_16 toy_mid ≡ (ok tt, once)
unfolding modify_latest bytes_eq latest find touch push_version current_records push_blocks
    push_record compose_record hash256 put_record push_blockmap last_name push_inode
    encrypt_symmetric bytes_at
makes_first = refl

makes_second :
    modify_latest number_env (7 ∷ []) (a_block ∷ []) (latest (7 ∷ []) once.index) key_16 once
    ≡ (ok tt, twice)
unfolding modify_latest bytes_eq latest find touch push_version current_records push_blocks
    push_record compose_record hash256 put_record push_blockmap last_name push_inode
    encrypt_symmetric bytes_at of_bytes assign get_pdu second_prevhash inode_payload encode_word
    new_isize record_type_to_string sealed_key join_hashes put_hashes split_hashes
makes_second = refl

second_version-key_example :
    (meta : FileMeta) × (read_file_meta number_env (7 ∷ []) twice ≡ (ok meta, twice))
    × (meta.aes_key ≡ half_of_sealed number_env key_16)
    × (meta.i_size ≡ 1 * default_block_size)
second_version-key_example =
    second_version-key number_env number_env-IsReadable number_ssl-IsDigest (7 ∷ []) key_16 key_16
      [] (a_block ∷ []) (a_block ∷ []) toy_mid once twice no_version makes_first makes_second
      sign_name (omega arith) refl (omega arith) (omega arith)
