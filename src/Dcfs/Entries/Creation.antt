-- ===== src/Dcfs/Entries/Creation.antt =====
-- A file that was created: its inode, its entry and its file descriptor.
use dcfs_client.Base.{
  ℕ, ◌+◌, ◌<◌, ◌≡◌, refl, sym, ap, ◌∙◌, true, false, Option, none, some, Bytes, ltb, ◌==◌, Outcome,
  ok, err, fault, arith, c_str, ascii, strcmp_eq, bytes_eq_refl, inl, inr, Bool-cases,
}
use dcfs_client.Cache.{put_at}
use dcfs_client.Directory.{DirectoryEntry, Directory, addent}
use dcfs_client.Directory.Scan.{first, find_entry_lem, first-append}
use dcfs_client.Directory.Names.{strcmp_eq-c_str}
use dcfs_client.Inode.{Inode, ref, fresh_inode}
use dcfs_client.Mid.{Env}
use dcfs_client.Inodes.{Inodes, lookup, blockmap_cover, allocate_inode}
use dcfs_client.Inodes.Fresh.{IsFresh, allocate_inode-IsFresh}
use dcfs_client.Dcfs.{eexist, done, failed, crash, Dcfs, fd_table_max, name_of, look_up, new_fd}
use dcfs_client.Dcfs.Entries.{file_stat, dcfs_getattr, dcfs_create, created, unless_found}
use dcfs_client.Dcfs.Valid.{pointee-object, look_up-first, fetch-present}

module _ {S : Type 0} (env : Env S) (block_size_in_kb : ℕ) where
  -- The file that was created under `path` is open as `fd`: new, empty, referred to once, and the
  -- entry that a look-up finds.
  pub record IsCreated (path : Bytes) (fd : ℕ) (t : Dcfs S) : Type 0 where
    pub name : Bytes
    pub key : Bytes
    pub address : ℕ
    pub some_fd : 0 < fd
    pub in_table : fd < fd_table_max
    pub fd_entry : t.fd_table fd ≡ name
    pub entered : lookup name t.inodes.table ≡ some address
    pub object :
        t.inodes.heap address ≡ some (ref (fresh_inode name block_size_in_kb blockmap_cover key))
    pub listed :
        first (name_of path) t.root.entries
        ≡ some (record { filename = c_str (name_of path); hashname = name })

  strcmp_eq_refl : (n : Bytes) → strcmp_eq n n ≡ true
  unfolding strcmp_eq
  strcmp_eq_refl n = bytes_eq_refl (c_str n)

  new_fd-done :
      (name : Bytes) (s t : Dcfs S) (fd : ℕ)
      → new_fd name s ≡ (done fd, t)
      → (0 < fd)
        × (fd < fd_table_max)
        × (t.fd_table fd ≡ name)
        × (t.inodes ≡ s.inodes)
        × (t.root ≡ s.root)
  unfolding new_fd
  new_fd-done name s t fd e = elim (Bool-cases (ltb (s.fd_cnt + 1) fd_table_max)) [
    | inl l ↦
        let is : t
            ≡ record s { fd_cnt = s.fd_cnt + 1; fd_table = put_at s.fd_table (s.fd_cnt + 1) name } =
          ground arith in
        let at : fd ≡ s.fd_cnt + 1 = ground arith in
        (omega (arith, at), ground arith, ground arith, ground arith, ground arith)
    | inr l ↦ let no : crash ≡ done fd = ground arith in cc
  ]

  fresh_object :
      (a : ℕ) (t : Inodes S) (ino : Inode) (f : IsFresh env block_size_in_kb a t)
      → t.heap a ≡ some ino
      → fresh_inode f.name block_size_in_kb blockmap_cover f.key ≡ ino
  fresh_object a t ino f h = let o = f.object in cc

  created-IsCreated :
      (path : Bytes) (x : Outcome (Option (ℕ × Inode)) × Dcfs S) (t : Dcfs S) (fd : ℕ)
      → ((a : ℕ) (ino : Inode)
          → x.0 ≡ ok (some (a, ino))
          → (f : IsFresh env block_size_in_kb a x.1.inodes) × (x.1.inodes.heap a ≡ some ino))
      → first (name_of path) x.1.root.entries ≡ none
      → created env block_size_in_kb path x ≡ (done fd, t)
      → IsCreated path fd t
  unfolding created addent fresh_inode
  created-IsCreated path (ok none, s) t fd f new e = cc
  created-IsCreated path (ok (some (a, ino)), s) t fd f new e =
      let (fresh, at) = f a ino refl in
      let is : fresh_inode fresh.name block_size_in_kb blockmap_cover fresh.key ≡ ino =
        fresh_object a s.inodes ino fresh at in
      let named : ino.hashname ≡ fresh.name = sym (ap (λ (i : Inode). i.hashname) is) in
      let entry = λ (n : Bytes).
        (let d : DirectoryEntry = record { filename = c_str (name_of path); hashname = n } in d) in
      let (pos, below, in_fd, same_inodes, same_root) = new_fd-done ino.hashname _ t fd e in
      let mine : (a == a) ≡ true = ground arith in
      record {
        name = fresh.name;
        key = fresh.key;
        address = a;
        some_fd = pos;
        in_table = below;
        fd_entry = in_fd ∙ named;
        entered = ap (λ (i : Inodes S). lookup fresh.name i.table) same_inodes ∙ fresh.entered;
        object = ap (λ (i : Inodes S). i.heap a) same_inodes ∙ rw (mine, is) refl;
        listed =
            ap (λ (d : Directory). first (name_of path) d.entries) same_root
            ∙ first-append (name_of path) s.root.entries (entry ino.hashname) new
                (strcmp_eq-c_str (name_of path) (name_of path) ∙ strcmp_eq_refl (name_of path))
            ∙ ap (λ (n : Bytes). some (entry n)) named;
      }
  created-IsCreated path (err x, s) t fd f new e = cc
  created-IsCreated path (fault, s) t fd f new e = cc

  unless_found-IsCreated :
      (path : Bytes) (x : Option DirectoryEntry × Dcfs S) (t : Dcfs S) (fd : ℕ)
      → (x.0 ≡ none → first (name_of path) x.1.root.entries ≡ none)
      → unless_found env block_size_in_kb path x ≡ (done fd, t)
      → IsCreated path fd t
  unfolding unless_found
  unless_found-IsCreated path (some d, s) t fd new e = cc
  unless_found-IsCreated path (none, s) t fd new e =
      created-IsCreated path _ t fd
        (λ a ino q.
          let (p, at) = pointee-object (allocate_inode env block_size_in_kb s.inodes).0 _ a ino q in
          (allocate_inode-IsFresh env block_size_in_kb s.inodes a p, at))
        (new refl) e

  pub dcfs_create-IsCreated :
      (path : Bytes) (s t : Dcfs S) (fd : ℕ)
      → dcfs_create env block_size_in_kb path s ≡ (done fd, t)
      → IsCreated path fd t
  unfolding dcfs_create
  dcfs_create-IsCreated path s t fd e =
      unless_found-IsCreated path (look_up path s) t fd (look_up-first path s) e

  IsCreated-look_up :
      (path : Bytes) (fd : ℕ) (t : Dcfs S) (c : IsCreated path fd t)
      → (look_up path t).0 ≡ some (record { filename = c_str (name_of path); hashname = c.name })
  unfolding look_up
  IsCreated-look_up path fd t c = (find_entry_lem (name_of path) t.root).0 ∙ c.listed

  -- When `dcfs_create` of a path other than "/" succeeds, `dcfs_getattr` then reports a regular file of
  -- no bytes under that path, and a second `dcfs_create` of it is refused with EEXIST.
  pub create-getattr :
      (path : Bytes) (s t : Dcfs S) (fd : ℕ)
      → dcfs_create env block_size_in_kb path s ≡ (done fd, t)
      → strcmp_eq path (ascii "/") ≡ false
      → ((dcfs_getattr env block_size_in_kb path t).0 ≡ done (file_stat 0))
        × ((dcfs_create env block_size_in_kb path t).0 ≡ failed eexist)
  unfolding dcfs_getattr dcfs_create look_up fresh_inode ref
  create-getattr path s t fd e n =
      let c = dcfs_create-IsCreated path s t fd e in
      let found = IsCreated-look_up path fd t c in
      let there =
        fetch-present env block_size_in_kb c.name c.address _ (look_up path t).1 c.entered
          c.object in
      (rw (dcfs_getattr, n, found, there) refl, rw (dcfs_create, found) refl)
