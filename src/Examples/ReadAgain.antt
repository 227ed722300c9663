-- ===== src/Examples/ReadAgain.antt =====
-- The theorem on a file that is closed, opened again, and read.
use dcfs_client.Base.{
  ◌*◌, ℕ, ◌≡◌, refl, some, none, [], ◌∷◌, Bytes, get_or, bytes_at, bytes_eq, arith, ◌==◌,
  if◌then◌else◌, ◌+◌, ◌/◌, ◌%◌, ◌<◌, Memory, strcmp_eq,
}
use dcfs_client.Crypto.{decrypt_symmetric}
use dcfs_client.Capsule.{datablock}
use dcfs_client.Directory.{find_entry, find_from, found, init_readdir, readdir}
use dcfs_client.Cache.View.{block_of}
use dcfs_client.Mid.Kept.{IsKept}
use dcfs_client.Mid.Payload.{default_block_size}
use dcfs_client.Inode.{Inode}
use dcfs_client.Inodes.{lookup}
use dcfs_client.Dcfs.{done, Dcfs, look_up}
use dcfs_client.Dcfs.Entries.{dcfs_open}
use dcfs_client.Dcfs.Files.{dcfs_read, dcfs_flush}
use dcfs_client.Dcfs.Files.ReadAgain.{flush-open-read}
use dcfs_client.Examples.Toy.{Store, toy_mid, blank}
use dcfs_client.Examples.Versions.{key_16}
use dcfs_client.Examples.Numbers.{
  names_given, number_ssl, number_env, number_ssl-IsPadded, number_env-IsStoring,
  number_env-IsReadable,
}
use dcfs_client.Examples.Reopened.{
  differ_sevens, new_host, sevens, sevens-IsValid, after_sevens, no_version, sign_name,
  flushes_sevens,
}

abbrev sevens_inode : Inode
sevens_inode = record { host = new_host; cache = sevens; ref_count = 1 }

-- The file is listed as "f", and open once, as 1.
abbrev one_open : Dcfs Store
one_open = record {
  root = record { entries = record { filename = 102 ∷ []; hashname = 7 ∷ [] } ∷ []; it = 0 };
  inodes = record {
    table = (7 ∷ [], 0) ∷ [];
    heap = λ a. if a == 0 then some sevens_inode else none;
    next = 1;
    mid = toy_mid;
  };
  fd_cnt = 1;
  fd_table = λ i. 7 ∷ [];
}

finds_f :
    (look_up (47 ∷ 102 ∷ []) one_open).0 ≡ some (record { filename = 102 ∷ []; hashname = 7 ∷ [] })
unfolding look_up find_entry find_from found init_readdir readdir strcmp_eq bytes_eq
finds_f = refl

is_entered : lookup (7 ∷ []) one_open.inodes.table ≡ some 0
unfolding lookup bytes_eq
is_entered = refl

flush-open-read_example :
    let (closed, t) = dcfs_flush number_env 16 blank [] 1 one_open in
    let (opened, u) = dcfs_open number_env 16 (47 ∷ 102 ∷ []) t in
    (closed ≡ done 0)
    × (opened ≡ done 2)
    × (now : Inode) × (u.inodes.heap t.inodes.next ≡ some now)
    × (now.size ≡ 1 * default_block_size)
    × (end : Memory) × ((dcfs_read number_env 16 blank [] blank 4 16380 2 u).0 ≡ done (end, 4))
    × ((i : ℕ)
        → i < 4
        → let p = 16380 + i in
          (name prev buf : Bytes) × IsKept number_env
            (7 ∷ [])
            datablock
            (prev ∷ [])
            buf
            name
            u.inodes.mid.server
          × ((decrypt_symmetric number_ssl key_16 none buf 0).out
              ≡ bytes_at (block_of sevens (p / 16384)) 0 16384)
          × (end i ≡ (if get_or name 0 0 == 0 then 0 else block_of sevens (p / 16384) (p % 16384))))
flush-open-read_example =
    flush-open-read number_env number_env-IsReadable names_given number_env-IsStoring
      number_ssl-IsPadded blank [] 1 0 sevens_inode one_open
      (record {
        some_fh = omega arith;
        in_table = omega arith;
        entered = is_entered;
        object = refl;
      })
      refl after_sevens.1 1 after_sevens.2 [] differ_sevens sevens-IsValid (λ i. refl) (λ i e. e)
      (omega arith) (omega arith) refl (omega arith) refl refl no_version sign_name flushes_sevens
      (47 ∷ 102 ∷ []) (102 ∷ []) [] 16380 4 blank finds_f (omega arith) (omega arith) (omega arith)
