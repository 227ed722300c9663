-- ===== src/Dcfs/Entries/Steps.antt =====
-- The operations on names keep the tables of the file system valid.
use dcfs_client.Base.{
  ℕ, suc, ◌+◌, ◌≡◌, refl, ◌∙◌, Option, none, some, Bytes, ltb, Outcome, ok, err, fault, arith,
  c_str, ascii, strcmp_eq, inl, inr, Bool-cases,
}
use dcfs_client.Cache.{put_at}
use dcfs_client.Directory.{DirectoryEntry, addent}
use dcfs_client.Directory.Scan.{first}
use dcfs_client.Directory.Names.{Distinct-append, first-c_str}
use dcfs_client.Inode.{Inode, ref}
use dcfs_client.Inode.Name.{ref-hashname}
use dcfs_client.Mid.{Env}
use dcfs_client.Inodes.{allocate_inode}
use dcfs_client.Inodes.Valid.{inode_table-IsValid}
use dcfs_client.Dcfs.{
  negative, Errno, Reply, done, failed, crash, Dcfs, fd_table_max, name_of, look_up, put_inode,
  new_fd,
}
use dcfs_client.Dcfs.Entries.{
  dcfs_getattr, attributes, entry_attributes, dcfs_create, created, unless_found, dcfs_open, opened,
  open_entry,
}
use dcfs_client.Dcfs.Valid.{
  IsValid, Fetched, same_inodes-IsValid, look_up-IsValid, look_up-first, put_inode-IsValid,
  pointee-object, fetch-Fetched,
}

module _ {S : Type 0} where
  -- A file descriptor was handed out.
  new_fd-IsValid :
      (n : ℕ) (name : Bytes) (s t : Dcfs S) (fd : ℕ)
      → new_fd name s ≡ (done fd, t)
      → IsValid n s
      → IsValid (suc n) t
  unfolding new_fd
  new_fd-IsValid n name s t fd e v = elim (Bool-cases (ltb (s.fd_cnt + 1) fd_table_max)) [
    | inl l ↦
        let is : t
            ≡ record s { fd_cnt = s.fd_cnt + 1; fd_table = put_at s.fd_table (s.fd_cnt + 1) name } =
          ground arith in
        rw is (record {
          table = v.table;
          names = v.names;
          counted = omega (arith, v.counted);
          few = ground arith;
          free = λ k p. ground (arith, v.free k);
        })
    | inr l ↦ let no : crash ≡ done fd = ground arith in cc
  ]

  new_fd-fd_cnt :
      (name : Bytes) (s t : Dcfs S) (fd : ℕ) → new_fd name s ≡ (done fd, t) → fd ≡ t.fd_cnt
  unfolding new_fd
  new_fd-fd_cnt name s t fd e = ground arith

  new_fd_total : (name : Bytes) (s t : Dcfs S) (e : Errno) → new_fd name s ≡ (failed e, t) → ⊥
  unfolding new_fd
  new_fd_total name s t e h = ground arith

module _ {S : Type 0} (env : Env S) (block_size_in_kb : ℕ) where
  attributes-IsValid :
      (n : ℕ) (x : Outcome (Option (ℕ × Inode)) × Dcfs S)
      → Fetched n x
      → IsValid n (attributes env block_size_in_kb x).1
  unfolding attributes
  attributes-IsValid n (ok none, s) f = f.valid
  attributes-IsValid n (ok (some (a, ino)), s) f = f.valid
  attributes-IsValid n (err e, s) f = f.valid
  attributes-IsValid n (fault, s) f = f.valid

  entry_attributes-IsValid :
      (n : ℕ) (x : Option DirectoryEntry × Dcfs S)
      → IsValid n x.1
      → IsValid n (entry_attributes env block_size_in_kb x).1
  unfolding entry_attributes
  entry_attributes-IsValid n (none, s) v = v
  entry_attributes-IsValid n (some e, s) v =
      attributes-IsValid n _ (fetch-Fetched env block_size_in_kb n e.hashname s v)

  pub dcfs_getattr-IsValid :
      (n : ℕ) (path : Bytes) (s : Dcfs S)
      → IsValid n s
      → IsValid n (dcfs_getattr env block_size_in_kb path s).1
  unfolding dcfs_getattr
  dcfs_getattr-IsValid n path s v = elim (Bool-cases (strcmp_eq path (ascii "/"))) [
    | inl t ↦ rw (dcfs_getattr, t) v
    | inr t ↦
        rw (dcfs_getattr, t)
          (entry_attributes-IsValid n (look_up path s) (look_up-IsValid n path s v))
  ]

  -- What a successful `dcfs_open` or `dcfs_create` and a failed one come to.
  abbrev pub Opens : ℕ → Reply ℕ × Dcfs S → Type 0
  Opens n (done fd, t) = IsValid (suc n) t × (fd ≡ t.fd_cnt)
  Opens n (failed e, t) = IsValid n t
  Opens n (negative k, t) = Unit {0}
  Opens n (crash, t) = Unit {0}

  new_fd-Opens : (n : ℕ) (name : Bytes) (s : Dcfs S) → IsValid n s → Opens n (new_fd name s)
  new_fd-Opens n name s v = by_result (new_fd name s) refl
    where
      by_result : (x : Reply ℕ × Dcfs S) → new_fd name s ≡ x → Opens n x
      by_result (done fd, t) e = (new_fd-IsValid n name s t fd e v, new_fd-fd_cnt name s t fd e)
      by_result (failed x, t) e = absurd (new_fd_total name s t x e)
      by_result (negative k, t) e = tt
      by_result (crash, t) e = tt

  opened-Opens :
      (n : ℕ) (name : Bytes) (x : Outcome (Option (ℕ × Inode)) × Dcfs S)
      → Fetched n x
      → Opens n (opened env block_size_in_kb name x)
  unfolding opened
  opened-Opens n name (ok none, s) f = f.valid
  opened-Opens n name (ok (some (a, ino)), s) f =
      new_fd-Opens n name (put_inode a (ref ino) s)
        (put_inode-IsValid n s a ino (ref ino) (f.pointed a ino refl) (ref-hashname ino) f.valid)
  opened-Opens n name (err e, s) f = tt
  opened-Opens n name (fault, s) f = tt

  open_entry-Opens :
      (n : ℕ) (x : Option DirectoryEntry × Dcfs S)
      → IsValid n x.1
      → Opens n (open_entry env block_size_in_kb x)
  unfolding open_entry
  open_entry-Opens n (none, s) v = v
  open_entry-Opens n (some e, s) v =
      opened-Opens n e.hashname _ (fetch-Fetched env block_size_in_kb n e.hashname s v)

  pub dcfs_open-Opens :
      (n : ℕ) (path : Bytes) (s : Dcfs S)
      → IsValid n s
      → Opens n (dcfs_open env block_size_in_kb path s)
  unfolding dcfs_open
  dcfs_open-Opens n path s v = open_entry-Opens n (look_up path s) (look_up-IsValid n path s v)

  addent-IsValid :
      (n : ℕ) (e : DirectoryEntry) (s : Dcfs S)
      → first e.filename s.root.entries ≡ none
      → IsValid n s
      → IsValid n (record s { root = addent e s.root })
  unfolding addent
  addent-IsValid n e s new v = record {
    table = v.table;
    names = Distinct-append s.root.entries e v.names new;
    counted = v.counted;
    few = v.few;
    free = v.free;
  }

  created-Opens :
      (n : ℕ) (path : Bytes) (x : Outcome (Option (ℕ × Inode)) × Dcfs S)
      → first (name_of path) x.1.root.entries ≡ none
      → Fetched n x
      → Opens n (created env block_size_in_kb path x)
  unfolding created
  created-Opens n path (ok none, s) new f = f.valid
  created-Opens n path (ok (some (a, ino)), s) new f =
      let entry : DirectoryEntry = record {
        filename = c_str (name_of path);
        hashname = ino.hashname;
      } in
      new_fd-Opens n ino.hashname _ (
        addent-IsValid n entry (put_inode a (ref ino) s)
          (first-c_str (name_of path) s.root.entries ∙ new)
          (put_inode-IsValid n s a ino (ref ino) (f.pointed a ino refl) (ref-hashname ino) f.valid))
  created-Opens n path (err e, s) new f = tt
  created-Opens n path (fault, s) new f = tt

  unless_found-Opens :
      (n : ℕ) (path : Bytes) (x : Option DirectoryEntry × Dcfs S)
      → (x.0 ≡ none → first (name_of path) x.1.root.entries ≡ none)
      → IsValid n x.1
      → Opens n (unless_found env block_size_in_kb path x)
  unfolding unless_found
  unless_found-Opens n path (some e, s) new v = v
  unless_found-Opens n path (none, s) new v =
      let (r, t) = allocate_inode env block_size_in_kb s.inodes in
      created-Opens n path _ (new refl) (record {
        valid =
            same_inodes-IsValid n s t (inode_table-IsValid env block_size_in_kb s.inodes v.table).0
              v;
        pointed = λ a ino e. (pointee-object r t a ino e).1;
      })

  pub dcfs_create-Opens :
      (n : ℕ) (path : Bytes) (s : Dcfs S)
      → IsValid n s
      → Opens n (dcfs_create env block_size_in_kb path s)
  unfolding dcfs_create
  dcfs_create-Opens n path s v =
      unless_found-Opens n path (look_up path s) (look_up-first path s) (look_up-IsValid n path s v)
