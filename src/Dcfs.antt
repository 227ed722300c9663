-- ===== src/Dcfs.antt =====
-- fs/dcfs.cpp and fs/dcfs.hpp: the operations that FUSE calls, over the root directory, the table of
-- inodes and the table of open files. Here the state and what the operations share; Entries has the
-- operations on names, Files those on open files. A path is a C string that starts with "/".
pub mod Entries
pub mod Files
pub mod Valid
pub mod Runs
use dcfs_client.Base.{
  ℕ, ◌+◌, ◌-◌, ◌^◌, ◌%◌, Bool, Option, none, some, List, [], Bytes, drop, ltb, ◌==◌, if◌then◌else◌,
  Outcome, ok, err, fault, Exec, c_str,
}
use dcfs_client.Directory.{DirectoryEntry, Directory, new_directory, find_entry}
use dcfs_client.Inode.{Inode}
use dcfs_client.Cache.{put_at}
use dcfs_client.Mid.{Env, Mid}
use dcfs_client.Inodes.{Inodes, get_inode}
use dcfs_client.Backend.{load_root}

-- -ENOENT, -EEXIST, -ENOMEM, -EIO
pub data Errno : Type 0 where
  enoent eexist enomem eio : Errno

-- What an operation comes to: its results, a negative errno, or the end of the program by a failed
-- assertion or undefined behaviour.
pub data Reply (A : Type 0) : Type 0 where
  done : A → Reply A
  failed : Errno → Reply A
  negative : ℕ → Reply A
  crash : Reply A

-- `return size` of a `size_t` where the function returns `int`, which has 32 bits. `negative n` is -n.
unfoldable pub return_size : {A : Type 0} → ℕ → (ℕ → A) → Reply A
return_size size out =
    let r = size % 2 ^ 32 in if ltb r (2 ^ 31) then done (out r) else negative (2 ^ 32 - r)

abbrev pub fd_table_max : ℕ
fd_table_max = 256

-- `inodes` holds `inode_table` and, behind it, what `dcfs->backend` reaches.
pub record Dcfs (S : Type 0) : Type 0 where
  pub root : Directory
  pub inodes : Inodes S
  pub fd_cnt : ℕ
  pub fd_table : ℕ → Bytes

-- `dcfs_init`, in a process that has just started.
unfoldable pub dcfs_init : {S : Type 0} → Mid S → Dcfs S
dcfs_init m = record {
  root = load_root;
  inodes = record { table = []; heap = λ a. none; next = 0; mid = m };
  fd_cnt = 10;
  fd_table = λ fd. [];
}

-- `path + 1`
abbrev pub name_of : Bytes → Bytes
name_of path = drop 1 path

-- The loop over the root directory that looks for `path + 1`.
unfoldable pub look_up : {S : Type 0} → Bytes → Dcfs S → Option DirectoryEntry × Dcfs S
look_up path s = let (e, d) = find_entry (name_of path) s.root in (e, record s { root = d })

-- An object assigned through a pointer to it.
abbrev pub put_inode : {S : Type 0} → ℕ → Inode → Dcfs S → Dcfs S
put_inode a ino s = record s {
  inodes = record s.inodes { heap = put_at s.inodes.heap a (some ino) };
}

-- The object that a pointer to an inode points to: `ok none` for NULL, and a fault where there is none.
abbrev pub pointee : {S : Type 0} → Outcome (Option ℕ) → Inodes S → Outcome (Option (ℕ × Inode))
pointee (ok none) t = ok none
pointee (ok (some a)) t = elim (t.heap a) [ none ↦ fault | some ino ↦ ok (some (a, ino)) ]
pointee (err e) t = fault
pointee fault t = fault

-- `fd = ++fd_cnt; fd_table[fd] = ...; fi->fh = fd`. Past the table's end this writes over other memory.
unfoldable pub new_fd : {S : Type 0} → Bytes → Dcfs S → Reply ℕ × Dcfs S
new_fd name s =
    let fd = s.fd_cnt + 1 in
    if ltb fd fd_table_max
    then (done fd, record s { fd_cnt = fd; fd_table = put_at s.fd_table fd name })
    else (crash, record s { fd_cnt = fd })

module _ {S : Type 0} (env : Env S) (block_size_in_kb : ℕ) where
  -- `get_inode`, and the object that it returns a pointer to.
  unfoldable pub fetch : Bytes → Exec (Dcfs S) (Option (ℕ × Inode))
  fetch name s =
      let (r, t) = get_inode env block_size_in_kb name s.inodes in
      (pointee r t, record s { inodes = t })

  fetch_entry :
      Outcome (Option (ℕ × Inode))
      → Option DirectoryEntry × Dcfs S
      → Outcome (Option (ℕ × Inode)) × Dcfs S
  fetch_entry unset (none, s) = (unset, s)
  fetch_entry unset (some e, s) = fetch e.hashname s

  -- The inode of an open file: by `fi->fh` if that is set, and by the path otherwise. `unset` is what
  -- the variable `inode` holds before.
  unfoldable pub file_inode :
      Outcome (Option (ℕ × Inode)) → Bytes → ℕ → Exec (Dcfs S) (Option (ℕ × Inode))
  unfolding fetch_entry
  file_inode unset path fh s =
      if ltb 0 fh
      then (if ltb fh fd_table_max then fetch (s.fd_table fh) s else (fault, s))
      else fetch_entry unset (look_up path s)
