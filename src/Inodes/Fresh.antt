-- ===== src/Inodes/Fresh.antt =====
-- What `allocate_inode` leaves behind when it succeeds.
use dcfs_client.Base.{ℕ, ◌≡◌, ◌∙◌, some, Bytes, bytes_eq_refl, Outcome, ok, err, fault, arith}
use dcfs_client.Inode.{fresh_inode}
use dcfs_client.Mid.{Env, Mid}
use dcfs_client.Backend.{create_new_file}
use dcfs_client.Inodes.{Inodes, lookup, enter, blockmap_cover, allocated, allocate_inode}
use dcfs_client.Inodes.Valid.{lookup-insert}

module _ {S : Type 0} (env : Env S) (block_size_in_kb : ℕ) where
  -- The pointer `a` is the new inode of a new, empty file.
  pub record IsFresh (a : ℕ) (t : Inodes S) : Type 0 where
    pub name : Bytes
    pub key : Bytes
    pub entered : lookup name t.table ≡ some a
    pub object : t.heap a ≡ some (fresh_inode name block_size_in_kb blockmap_cover key)

  allocated-IsFresh :
      (x : Outcome (Bytes × Bytes) × Mid S) (s : Inodes S) (a : ℕ)
      → (allocated env block_size_in_kb x s).0 ≡ ok (some a)
      → IsFresh a (allocated env block_size_in_kb x s).1
  unfolding allocated enter
  allocated-IsFresh (ok (n, k), m) s a e =
      let is : s.next ≡ a = ground arith in
      rw (← is) (record {
        name = n;
        key = k;
        entered = lookup-insert n n s.next s.table ∙ ground (arith, bytes_eq_refl n);
        object = ground arith;
      })
  allocated-IsFresh (err x, m) s a e = cc
  allocated-IsFresh (fault, m) s a e = cc

  pub allocate_inode-IsFresh :
      (s : Inodes S) (a : ℕ)
      → (allocate_inode env block_size_in_kb s).0 ≡ ok (some a)
      → IsFresh a (allocate_inode env block_size_in_kb s).1
  unfolding allocate_inode
  allocate_inode-IsFresh s a e = allocated-IsFresh (create_new_file env s.mid) s a e
