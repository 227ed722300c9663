-- ===== src/Dcfs/Files/Transfer.antt =====
-- Bytes that are written to an open file are read back through the same file descriptor.
use dcfs_client.Base.{
  ◌%◌, ℕ, ◌+◌, ◌^◌, ◌≤◌, ◌<◌, ◌≡◌, refl, sym, subst, ◌∙◌, true, false, Option, none, some, Bytes,
  Memory, add64, ltb, Outcome, ok, fault, arith,
}
use native.Mathlib.Nat.{mod-eq_of_lt}
use dcfs_client.Cache.View
use dcfs_client.Cache.View.{IsServed}
use dcfs_client.Inode.{Inode}
use dcfs_client.Inode.RoundTrip.{bytes, read_lem, write_lem}
use dcfs_client.Mid.{Env}
use dcfs_client.Inodes.{lookup}
use dcfs_client.Backend.Serving.{backend_reader}
use dcfs_client.Dcfs.{return_size, done, Dcfs, fd_table_max, put_inode, file_inode}
use dcfs_client.Dcfs.Valid.{fetch-present}
use dcfs_client.Dcfs.Files.{dcfs_read, dcfs_write}

module _ {S : Type 0} (env : Env S) (block_size_in_kb : ℕ) (junk : Memory) where
  -- `fh` is the file descriptor of a file whose inode is `ino`, in memory at `a`.
  pub record IsOpen (fh a : ℕ) (ino : Inode) (s : Dcfs S) : Type 0 where
    pub some_fh : 0 < fh
    pub in_table : fh < fd_table_max
    pub entered : lookup (s.fd_table fh) s.inodes.table ≡ some a
    pub object : s.inodes.heap a ≡ some ino

  pub IsOpen-file_inode :
      (unset : Outcome (Option (ℕ × Inode))) (path : Bytes) (fh a : ℕ) (ino : Inode) (s : Dcfs S)
      → IsOpen fh a ino s
      → file_inode env block_size_in_kb unset path fh s ≡ (ok (some (a, ino)), s)
  unfolding file_inode
  IsOpen-file_inode unset path fh a ino s o =
      let p : ltb 0 fh ≡ true = ground (arith, o.some_fh) in
      let q : ltb fh fd_table_max ≡ true = ground (arith, o.in_table) in
      rw (file_inode, p, q)
        (fetch-present env block_size_in_kb (s.fd_table fh) a ino s o.entered o.object)

  IsOpen-put_inode :
      (fh a : ℕ) (ino out : Inode) (s : Dcfs S)
      → IsOpen fh a ino s
      → IsOpen fh a out (put_inode a out s)
  IsOpen-put_inode fh a ino out s o = record {
    some_fh = o.some_fh;
    in_table = o.in_table;
    entered = o.entered;
    object = ground arith;
  }

  return_size-small :
      {A : Type 0} (n : ℕ) (out : ℕ → A) → n < 2 ^ 31 → return_size n out ≡ done (out n)
  unfolding return_size
  return_size-small n out l =
      let same : n % 2 ^ 32 ≡ n = mod-eq_of_lt (omega arith) in
      let t : ltb n (2 ^ 31) ≡ true = ground arith in rw (same, t) refl

  -- A read through the file descriptor of an open file, within the file.
  pub dcfs_read-IsOpen :
      (path : Bytes) (fh a : ℕ) (ino : Inode) (s : Dcfs S)
      → IsOpen fh a ino s
      → IsServed ino.host env.ssl (backend_reader env s.inodes.mid) junk ino.cache
      → View.IsValid ino.cache
      → 0 < ino.block_size
      → (mem : Memory) (size offset : ℕ) → 0 < size
      → offset + size ≤ ino.size
      → offset + size < 2 ^ 64
      → size < 2 ^ 31
      → (end : Memory) × ((dcfs_read env block_size_in_kb junk path mem size offset fh s).0
          ≡ done (end, size))
        × ((i : ℕ)
            → i < size
            → end i ≡ bytes env.ssl (backend_reader env s.inodes.mid) junk ino (offset + i))
  unfolding dcfs_read
  dcfs_read-IsOpen path fh a ino s o served valid pos mem size offset some_bytes inside fits int =
      let (end, later, reads, got) =
        read_lem env.ssl (backend_reader env s.inodes.mid) junk ino served valid pos mem offset size
          some_bytes inside fits in
      let found = IsOpen-file_inode fault path fh a ino s o in
      let wrap : add64 offset size ≡ offset + size = mod-eq_of_lt fits in
      let below : ltb offset ino.size ≡ true = ground arith in
      let enough : ltb ino.size (offset + size) ≡ false = ground arith in
      let back = return_size-small {A = Memory × ℕ} size (λ r. (end, r)) int in
      (end, rw (dcfs_read, found, below, wrap, enough, reads, back) refl, got)

  module _ (path : Bytes) (fh a : ℕ) (ino : Inode) (s : Dcfs S) (open_file : IsOpen fh a ino s)
      (served : IsServed ino.host env.ssl (backend_reader env s.inodes.mid) junk ino.cache)
      (valid : View.IsValid ino.cache) (pos : 0 < ino.block_size) (buf mem : Memory)
      (size offset : ℕ) (some_bytes : 0 < size) (inside : offset ≤ ino.size)
      (fits : offset + size < 2 ^ 64) (int : size < 2 ^ 31) where
    -- A write through the file descriptor of an open file, at most at the file's end, returns the number of
    -- bytes; and a read of the same range through it then returns that number and the same bytes. The
    -- backend has what the cache needs (`IsServed`), the inode's cache is valid with blocks of at least
    -- one byte, and the range has at least one byte, fewer than 2^31, and does not wrap at 2^64.
    pub dcfs_read-write :
        let (r, t) = dcfs_write env block_size_in_kb junk path buf size offset fh s in
        (r ≡ done size)
        × (end : Memory) × ((dcfs_read env block_size_in_kb junk path mem size offset fh t).0
            ≡ done (end, size))
        × ((i : ℕ) → i < size → end i ≡ buf i)
    unfolding dcfs_write
    dcfs_read-write =
        let reader = backend_reader env s.inodes.mid in
        let (out, runs, sz, new, _, _, w, has, b) =
          write_lem env.ssl reader junk ino served valid pos buf offset size some_bytes inside
            fits in
        let first = IsOpen-file_inode (ok none) path fh a ino s open_file in
        let t = put_inode a out s in
        let written : dcfs_write env block_size_in_kb junk path buf size offset fh s
            ≡ (done size, t) =
          rw (dcfs_write, first, runs, return_size-small size (λ r. r) int) refl in
        let (end, reads, got) =
          dcfs_read-IsOpen path fh a out t (IsOpen-put_inode fh a ino out s open_file) has w
            (subst (λ n. 0 < n) (sym b) pos) mem size offset some_bytes (ground (arith, sz)) fits
            int in
        rw written (refl, end, reads, λ i l. got i l ∙ new i l)
