-- ===== src/Dcfs/Valid.antt =====
-- What every operation of the file system keeps true of its tables.
use dcfs_client.Base.{
  ℕ, ◌+◌, ◌<◌, ◌≡◌, refl, sym, ap, ◌∙◌, Option, none, some, [], Bytes, ltb, ◌==◌, Outcome, ok, err,
  fault, arith, inl, inr, Bool-cases,
}
use dcfs_client.Cache.{put_at}
use dcfs_client.Directory.{DirectoryEntry}
use dcfs_client.Directory.Scan.{first, find_entry_lem}
use dcfs_client.Directory.Names.{Distinct}
use dcfs_client.Inode.{Inode}
use dcfs_client.Mid.{Env}
use dcfs_client.Inodes
use dcfs_client.Inodes.{Inodes, lookup, get_inode}
use dcfs_client.Inodes.Valid
use dcfs_client.Inodes.Valid.{inode_table-IsValid, get_inode-present}
use dcfs_client.Dcfs.{
  Dcfs, fd_table_max, name_of, look_up, put_inode, pointee, fetch, fetch_entry, file_inode,
}

module _ {S : Type 0} where
  -- After `opened` files were created or opened: every name in the inode table leads to that file's
  -- inode, the names of the directory are distinct, one file descriptor was used for each, and those
  -- behind them are free.
  pub record IsValid (opened : ℕ) (s : Dcfs S) : Type 0 where
    pub table : Inodes.Valid.IsValid s.inodes
    pub names : Distinct s.root.entries
    pub counted : s.fd_cnt ≡ 10 + opened
    pub few : s.fd_cnt < fd_table_max
    pub free : (fd : ℕ) → s.fd_cnt < fd → s.fd_table fd ≡ []

  -- A result of `get_inode` with its object, in a valid state.
  pub record Fetched (opened : ℕ) (x : Outcome (Option (ℕ × Inode)) × Dcfs S) : Type 0 where
    pub valid : IsValid opened x.1
    pub pointed : (a : ℕ) (ino : Inode) → x.0 ≡ ok (some (a, ino)) → x.1.inodes.heap a ≡ some ino

  -- Only the tables of inodes differ.
  pub same_inodes-IsValid :
      (n : ℕ) (s : Dcfs S) (t : Inodes S)
      → Inodes.Valid.IsValid t
      → IsValid n s
      → IsValid n (record s { inodes = t })
  same_inodes-IsValid n s t w v = record {
    table = w;
    names = v.names;
    counted = v.counted;
    few = v.few;
    free = v.free;
  }

  pub look_up-entries :
      (path : Bytes) (s : Dcfs S) → (look_up path s).1.root.entries ≡ s.root.entries
  unfolding look_up
  look_up-entries path s = (find_entry_lem (name_of path) s.root).1

  pub look_up-IsValid :
      (n : ℕ) (path : Bytes) (s : Dcfs S) → IsValid n s → IsValid n (look_up path s).1
  unfolding look_up
  look_up-IsValid n path s v = record {
    table = v.table;
    names = rw (find_entry_lem (name_of path) s.root).1 v.names;
    counted = v.counted;
    few = v.few;
    free = v.free;
  }

  pub look_up-first :
      (path : Bytes) (s : Dcfs S)
      → (look_up path s).0 ≡ none
      → first (name_of path) (look_up path s).1.root.entries ≡ none
  unfolding look_up
  look_up-first path s e =
      let (is, same) = find_entry_lem (name_of path) s.root in
      ap (first (name_of path)) same ∙ sym is ∙ e

  heap-put_at :
      (t : Inodes S) (a : ℕ) (old ino : Inode)
      → t.heap a ≡ some old
      → ino.hashname ≡ old.hashname
      → Inodes.Valid.IsValid t
      → Inodes.Valid.IsValid (record t { heap = put_at t.heap a (some ino) })
  heap-put_at t a old ino h e w k b p =
      let (l, i, at_b, name) = w k b p in
      elim (Bool-cases (a == b)) [
        | inl y ↦
            let same : a ≡ b = ground arith in
            let is : old ≡ i = cc in
            (l, ino, rw y refl, e ∙ ap (λ (x : Inode). x.hashname) is ∙ name)
        | inr n ↦ (l, i, rw n at_b, name)
      ]

  pub put_inode-IsValid :
      (n : ℕ) (s : Dcfs S) (a : ℕ) (old ino : Inode)
      → s.inodes.heap a ≡ some old
      → ino.hashname ≡ old.hashname
      → IsValid n s
      → IsValid n (put_inode a ino s)
  put_inode-IsValid n s a old ino h e v =
      same_inodes-IsValid n s _ (heap-put_at s.inodes a old ino h e v.table) v

  pub pointee-object :
      (r : Outcome (Option ℕ)) (t : Inodes S) (a : ℕ) (ino : Inode)
      → pointee r t ≡ ok (some (a, ino))
      → (r ≡ ok (some a)) × (t.heap a ≡ some ino)
  pointee-object (ok none) t a ino e = cc
  pointee-object (ok (some b)) t a ino e = ground arith
  pointee-object (err x) t a ino e = cc
  pointee-object fault t a ino e = cc

module _ {S : Type 0} (env : Env S) (block_size_in_kb : ℕ) where
  -- A file that is in memory.
  pub fetch-present :
      (name : Bytes) (a : ℕ) (ino : Inode) (t : Dcfs S)
      → lookup name t.inodes.table ≡ some a
      → t.inodes.heap a ≡ some ino
      → fetch env block_size_in_kb name t ≡ (ok (some (a, ino)), t)
  unfolding fetch
  fetch-present name a ino t p h =
      rw (get_inode-present env block_size_in_kb name t.inodes a p, pointee, h) refl

  pub fetch-Fetched :
      (n : ℕ) (name : Bytes) (s : Dcfs S)
      → IsValid n s
      → Fetched n (fetch env block_size_in_kb name s)
  unfolding fetch
  fetch-Fetched n name s v =
      let (r, t) = get_inode env block_size_in_kb name s.inodes in
      record {
        valid =
            same_inodes-IsValid n s t
              ((inode_table-IsValid env block_size_in_kb s.inodes v.table).1 name) v;
        pointed = λ a ino e. (pointee-object r t a ino e).1;
      }

  fetch_entry-Fetched :
      (n : ℕ) (unset : Outcome (Option (ℕ × Inode))) (x : Option DirectoryEntry × Dcfs S)
      → ((a : ℕ) (ino : Inode) → unset ≡ ok (some (a, ino)) → ⊥)
      → IsValid n x.1
      → Fetched n (fetch_entry env block_size_in_kb unset x)
  unfolding fetch_entry
  fetch_entry-Fetched n unset (none, s) u v = record {
    valid = v;
    pointed = λ a ino e. absurd (u a ino e);
  }
  fetch_entry-Fetched n unset (some e, s) u v = fetch-Fetched n e.hashname s v

  pub file_inode-Fetched :
      (n : ℕ) (unset : Outcome (Option (ℕ × Inode))) (path : Bytes) (fh : ℕ) (s : Dcfs S)
      → ((a : ℕ) (ino : Inode) → unset ≡ ok (some (a, ino)) → ⊥)
      → IsValid n s
      → Fetched n (file_inode env block_size_in_kb unset path fh s)
  unfolding file_inode
  file_inode-Fetched n unset path fh s u v = elim (Bool-cases (ltb 0 fh)) [
    | inl t ↦ elim (Bool-cases (ltb fh fd_table_max)) [
      | inl l ↦ rw (file_inode, t, l) (fetch-Fetched n (s.fd_table fh) s v)
      | inr l ↦ rw (file_inode, t, l) (record { valid = v; pointed = λ a ino e. cc })
    ]
    | inr t ↦
        rw (file_inode, t)
          (fetch_entry-Fetched n unset (look_up path s) u (look_up-IsValid n path s v))
  ]
