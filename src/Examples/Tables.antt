-- ===== src/Examples/Tables.antt =====
-- The theorems on names and the inode table, at small ones.
use dcfs_client.Base.{none, [], ◌∷◌, Bytes}
use dcfs_client.Inodes.{Inodes, lookup, allocate_inode, get_inode, release_inode}
use dcfs_client.Inodes.Valid.{IsValid, inode_table-IsValid}
use dcfs_client.Examples.Toy.{Store, toy_env, toy_mid}

-- No inode in memory, and a file whose latest version is the record 4.
abbrev no_inodes : Inodes Store
no_inodes = record {
  table = [];
  heap = λ a. none;
  next = 0;
  mid = record toy_mid { index = (7 ∷ [], 4 ∷ []) ∷ [] };
}

no_inodes-IsValid : IsValid no_inodes
unfolding lookup
no_inodes-IsValid k a p = cc

inode_table-IsValid_example :
    IsValid (allocate_inode toy_env 16 no_inodes).1
    × ((name : Bytes) → IsValid (get_inode toy_env 16 name no_inodes).1)
    × ((name : Bytes) → IsValid (release_inode name no_inodes))
inode_table-IsValid_example = inode_table-IsValid toy_env 16 no_inodes no_inodes-IsValid
