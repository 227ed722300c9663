-- ===== src/Examples/Reopened.antt =====
-- The theorem on a file that is opened again, with the digests that are numbers.
use dcfs_client.Base.{
  ℕ, zero, suc, ◌≡◌, refl, some, none, [], ◌∷◌, Bytes, get_or, bytes_at, bytes_eq, arith, Outcome,
  of_bytes, ok, true, ◌*◌, ltb, ◌==◌, if◌then◌else◌, ◌+◌, ◌/◌, ◌%◌, ◌<◌, Memory,
}
use dcfs_client.Crypto.{hash256, encrypt_symmetric, decrypt_symmetric, sign, verify}
use dcfs_client.Capsule.{datablock}
use dcfs_client.Cache.{Host, Cache, deref}
use dcfs_client.Cache.View.{IsValid, block_of}
use dcfs_client.Cache.Flush.{flush_cache, dirty_descs, seal_block}
use dcfs_client.Mid.{Mid, latest, find, touch, compose_record, put_record}
use dcfs_client.Mid.Modify.{
  modify, modify_latest, check_signature, push_version, current_records, push_blocks, push_record,
  last_name, push_blockmap, push_inode, new_isize,
}
use dcfs_client.Mid.Kept.{IsKept, AllDifferent}
use dcfs_client.Mid.Payload.{
  default_block_size, inode_payload, encode_word, join_hashes, put_hashes,
}
use dcfs_client.Backend.{FileMeta, read_file_meta, sign_args, write_record}
use dcfs_client.Backend.Serving.{backend_reader, backend_writer}
use dcfs_client.Backend.Content.{reopened}
use dcfs_client.Inode
use dcfs_client.Inode.{Inode}
use dcfs_client.Backend.Reread.{flush_cache-read}
use dcfs_client.Examples.Toy.{Store, toy_mid, blank}
use dcfs_client.Examples.Versions.{key_16}
use dcfs_client.Examples.Numbers.{
  names_given, all_different, all_different-AllDifferent, number_ssl, number_env,
  number_ssl-IsPadded, number_env-IsStoring, number_env-IsReadable,
}

-- A file in whose first block everything is 7, cached and dirty.
abbrev pub new_host : Host
new_host = record {
  hashname = 7 ∷ [];
  ino_recordname = [];
  size = 16384;
  block_size = 16384;
  bm_cover = 512;
  bm_recordname = [];
  aes_key = key_16;
}

abbrev pub sevens : Cache
sevens = record {
  count = 2;
  cached = λ i. ltb i 1;
  dirty = λ i. ltb i 1;
  blocks = λ i. if ltb i 1 then some (λ o. 7) else none;
  bm = none;
}

pub sevens-IsValid : IsValid sevens
sevens-IsValid zero e = (omega arith, refl)
sevens-IsValid (suc i) e = absurd (ground arith)

abbrev pub after_sevens : Outcome (Unit {0}) × Cache × Mid Store
after_sevens = flush_cache new_host number_ssl (backend_writer number_env) sevens toy_mid

pub no_version : latest (7 ∷ []) toy_mid.index ≡ []
unfolding latest find bytes_eq
no_version = refl

pub sign_name : sign_args number_env (7 ∷ []) ≡ ok []
unfolding sign_args hash256 sign
sign_name = refl

pub flushes_sevens : after_sevens ≡ (ok tt, after_sevens.1, after_sevens.2)
unfolding flush_cache dirty_descs encrypt_symmetric write_record sign_args hash256 sign modify
    check_signature verify modify_latest bytes_eq latest find touch push_version current_records
    push_blocks deref seal_block last_name push_blockmap push_inode push_record compose_record
    put_record bytes_at
flushes_sevens = refl

given_once : all_different (names_given after_sevens.2.server) ≡ true
unfolding flush_cache dirty_descs encrypt_symmetric write_record sign_args hash256 sign modify
    check_signature verify modify_latest bytes_eq latest find touch push_version current_records
    push_blocks deref seal_block last_name push_blockmap push_inode push_record compose_record
    put_record bytes_at inode_payload encode_word of_bytes new_isize join_hashes put_hashes
given_once = refl

pub differ_sevens : AllDifferent (names_given after_sevens.2.server)
differ_sevens = all_different-AllDifferent (names_given after_sevens.2.server) given_once

flush_cache-read_example :
    (meta : FileMeta) × (read_file_meta number_env (7 ∷ []) after_sevens.2
      ≡ (ok meta, after_sevens.2))
    × (meta.i_size ≡ 1 * default_block_size)
    × (end : Memory) × (later : Inode) × (Inode.read number_ssl
          (backend_reader number_env after_sevens.2)
          blank
          blank
          16380
          4
          (reopened (7 ∷ []) meta)
        ≡ (ok (end, some 4), later))
    × ((i : ℕ)
        → i < 4
        → let p = 16380 + i in
          (name prev buf : Bytes) × IsKept number_env
            (7 ∷ [])
            datablock
            (prev ∷ [])
            buf
            name
            after_sevens.2.server
          × ((decrypt_symmetric number_ssl key_16 none buf 0).out
              ≡ bytes_at (block_of sevens (p / 16384)) 0 16384)
          × (end i ≡ (if get_or name 0 0 == 0 then 0 else block_of sevens (p / 16384) (p % 16384))))
flush_cache-read_example =
    flush_cache-read number_env number_env-IsReadable names_given number_env-IsStoring
      number_ssl-IsPadded new_host sevens after_sevens.1 1 toy_mid after_sevens.2 [] blank
      differ_sevens sevens-IsValid (λ i. refl) (λ i e. e) (omega arith) (omega arith) refl
      (omega arith) refl refl no_version sign_name flushes_sevens 16380 4 blank (omega arith)
      (omega arith)
