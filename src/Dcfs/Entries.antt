-- ===== src/Dcfs/Entries.antt =====
-- fs/dcfs.cpp: `dcfs_getattr`, `dcfs_readdir`, `dcfs_create` and `dcfs_open`.
pub mod Steps
pub mod Listing
pub mod Creation
use dcfs_client.Base.{
  ℕ, zero, suc, ◌+◌, Bool, true, false, Option, none, some, List, [], ◌∷◌, Bytes, length, ascii,
  strcmp_eq, c_str, if◌then◌else◌, Outcome, ok, err, fault,
}
use dcfs_client.Directory.{DirectoryEntry, Directory, init_readdir, readdir, addent}
use dcfs_client.Inode.{Inode, ref}
use dcfs_client.Mid.{Env}
use dcfs_client.Inodes.{Inodes, allocate_inode}
use dcfs_client.Dcfs.{
  Errno, enoent, eexist, enomem, eio, Reply, done, failed, crash, Dcfs, name_of, look_up, put_inode,
  pointee, new_fd, fetch,
}

-- The fields of `struct stat` that are set; the others are 0.
pub record Stat : Type 0 where
  pub st_mode : ℕ
  pub st_nlink : ℕ
  pub st_size : ℕ

-- S_IFDIR | 0755
abbrev pub root_stat : Stat
root_stat = record { st_mode = 0o40755; st_nlink = 2; st_size = 0 }

-- S_IFREG | 0444
abbrev pub file_stat : ℕ → Stat
file_stat size = record { st_mode = 0o100444; st_nlink = 1; st_size = size }

-- The names that the loop of `dcfs_readdir` gives to `filler`: rounds left, as fuel.
listed :
    Option DirectoryEntry × Directory
    → (Directory → List Bytes × Directory)
    → List Bytes × Directory
listed (none, d) next = ([], d)
listed (some e, d) next = let (names, d') = next d in (c_str e.filename ∷ names, d')

unfoldable pub list_from : ℕ → Directory → List Bytes × Directory
unfolding listed
list_from zero d = ([], d)
list_from (suc rounds) d = listed (readdir d) (list_from rounds)

-- `dcfs_readdir`: what `filler` is given, in order.
unfoldable pub dcfs_readdir : {S : Type 0} → Bytes → Dcfs S → Reply (List Bytes) × Dcfs S
dcfs_readdir path s =
    let (names, d) = list_from (suc (length s.root.entries)) (init_readdir s.root) in
    if strcmp_eq path (ascii "/")
    then (done (ascii "." ∷ ascii ".." ∷ names), record s { root = d })
    else (failed enoent, s)

module _ {S : Type 0} (env : Env S) (block_size_in_kb : ℕ) where
  -- A NULL inode is dereferenced.
  attributes : Outcome (Option (ℕ × Inode)) × Dcfs S → Reply Stat × Dcfs S
  attributes (ok none, s) = (crash, s)
  attributes (ok (some (a, ino)), s) = (done (file_stat ino.size), s)
  attributes (err e, s) = (crash, s)
  attributes (fault, s) = (crash, s)

  entry_attributes : Option DirectoryEntry × Dcfs S → Reply Stat × Dcfs S
  unfolding attributes
  entry_attributes (none, s) = (failed enoent, s)
  entry_attributes (some e, s) = attributes (fetch env block_size_in_kb e.hashname s)

  unfoldable pub dcfs_getattr : Bytes → Dcfs S → Reply Stat × Dcfs S
  unfolding entry_attributes
  dcfs_getattr path s =
      if strcmp_eq path (ascii "/") then (done root_stat, s) else entry_attributes (look_up path s)

  -- `inode->Ref()`, the new entry, and the file descriptor.
  created : Bytes → Outcome (Option (ℕ × Inode)) × Dcfs S → Reply ℕ × Dcfs S
  created path (ok none, s) = (failed enomem, s)
  created path (ok (some (a, ino)), s) =
      let entry : DirectoryEntry = record {
        filename = c_str (name_of path);
        hashname = ino.hashname;
      } in
      let s' : Dcfs S = put_inode a (ref ino) s in
      new_fd ino.hashname (record s' { root = addent entry s'.root })
  created path (err e, s) = (crash, s)
  created path (fault, s) = (crash, s)

  unless_found : Bytes → Option DirectoryEntry × Dcfs S → Reply ℕ × Dcfs S
  unfolding created
  unless_found path (some e, s) = (failed eexist, s)
  unless_found path (none, s) =
      let (r, t) = allocate_inode env block_size_in_kb s.inodes in
      created path (pointee r t, record s { inodes = t })

  -- `fi->fh` on success.
  unfoldable pub dcfs_create : Bytes → Dcfs S → Reply ℕ × Dcfs S
  unfolding unless_found
  dcfs_create path s = unless_found path (look_up path s)

  opened : Bytes → Outcome (Option (ℕ × Inode)) × Dcfs S → Reply ℕ × Dcfs S
  opened name (ok none, s) = (failed enoent, s)
  opened name (ok (some (a, ino)), s) = new_fd name (put_inode a (ref ino) s)
  opened name (err e, s) = (crash, s)
  opened name (fault, s) = (crash, s)

  open_entry : Option DirectoryEntry × Dcfs S → Reply ℕ × Dcfs S
  unfolding opened
  open_entry (none, s) = (failed enoent, s)
  open_entry (some e, s) = opened e.hashname (fetch env block_size_in_kb e.hashname s)

  -- `fi->fh` on success.
  unfoldable pub dcfs_open : Bytes → Dcfs S → Reply ℕ × Dcfs S
  unfolding open_entry
  dcfs_open path s = open_entry (look_up path s)
