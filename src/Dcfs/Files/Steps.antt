-- ===== src/Dcfs/Files/Steps.antt =====
-- The operations on open files keep the tables of the file system valid.
use dcfs_client.Base.{
  ℕ, ◌≡◌, refl, Option, none, some, Bytes, Memory, ltb, ◌==◌, if◌then◌else◌, Outcome, ok, err,
  fault, arith, inl, inr, Bool-cases, add64, ◌-◌,
}
use dcfs_client.Inode
use dcfs_client.Inode.{Inode, unref}
use dcfs_client.Inode.Name.{read-hashname, write-hashname, unref-hashname}
use dcfs_client.Mid.{Env, Mid}
use dcfs_client.Inodes.{Inodes, release_inode}
use dcfs_client.Inodes.Valid.{inode_table-IsValid}
use dcfs_client.Backend.Serving.{backend_reader, backend_writer}
use dcfs_client.Dcfs.{Dcfs, put_inode}
use dcfs_client.Dcfs.Files.{
  dcfs_read, after_read, read_from, dcfs_write, after_write, write_to, dcfs_flush, flush_inode,
  after_unref, close_file,
}
use dcfs_client.Dcfs.Valid.{
  IsValid, Fetched, same_inodes-IsValid, put_inode-IsValid, file_inode-Fetched,
}

module _ {S : Type 0} (env : Env S) (block_size_in_kb : ℕ) (junk : Memory) where
  after_read-inode :
      (a size : ℕ) (s : Dcfs S) (x : Outcome (Memory × Option ℕ) × Inode)
      → (after_read env block_size_in_kb junk a size s x).1 ≡ put_inode a x.1 s
  unfolding after_read
  after_read-inode a size s (ok (buf, n), ino) = refl
  after_read-inode a size s (err e, ino) = refl
  after_read-inode a size s (fault, ino) = refl

  read_from-IsValid :
      (n : ℕ) (buf : Memory) (size offset : ℕ) (x : Outcome (Option (ℕ × Inode)) × Dcfs S)
      → Fetched n x
      → IsValid n (read_from env block_size_in_kb junk buf size offset x).1
  unfolding read_from
  read_from-IsValid n buf size offset (ok none, s) f = f.valid
  read_from-IsValid n buf size offset (ok (some (a, ino)), s) f =
      let reader = backend_reader env s.inodes.mid in
      let size' = if ltb ino.size (add64 offset size) then ino.size - offset else size in
      let x = Inode.read env.ssl reader junk buf offset size' ino in
      elim (Bool-cases (ltb offset ino.size)) [
        | inl t ↦
            rw (t, after_read-inode a size' s x)
              (put_inode-IsValid n s a ino x.1 (f.pointed a ino refl)
                (read-hashname env.ssl reader junk buf offset size' ino) f.valid)
        | inr t ↦ rw t f.valid
      ]
  read_from-IsValid n buf size offset (err e, s) f = f.valid
  read_from-IsValid n buf size offset (fault, s) f = f.valid

  pub dcfs_read-IsValid :
      (n : ℕ) (path : Bytes) (buf : Memory) (size offset fh : ℕ) (s : Dcfs S)
      → IsValid n s
      → IsValid n (dcfs_read env block_size_in_kb junk path buf size offset fh s).1
  unfolding dcfs_read
  dcfs_read-IsValid n path buf size offset fh s v =
      read_from-IsValid n buf size offset _
        (file_inode-Fetched env block_size_in_kb n fault path fh s (λ a ino e. cc) v)

  after_write-inode :
      (a size : ℕ) (s : Dcfs S) (x : Outcome ℕ × Inode)
      → (after_write env block_size_in_kb junk a size s x).1 ≡ put_inode a x.1 s
  unfolding after_write
  after_write-inode a size s (ok n, ino) = refl
  after_write-inode a size s (err e, ino) = refl
  after_write-inode a size s (fault, ino) = refl

  write_to-IsValid :
      (n : ℕ) (buf : Memory) (size offset : ℕ) (x : Outcome (Option (ℕ × Inode)) × Dcfs S)
      → Fetched n x
      → IsValid n (write_to env block_size_in_kb junk buf size offset x).1
  unfolding write_to
  write_to-IsValid n buf size offset (ok none, s) f = f.valid
  write_to-IsValid n buf size offset (ok (some (a, ino)), s) f =
      let reader = backend_reader env s.inodes.mid in
      let x = Inode.write env.ssl reader junk buf offset size ino in
      rw (after_write-inode a size s x) (
        put_inode-IsValid n s a ino x.1 (f.pointed a ino refl)
          (write-hashname env.ssl reader junk buf offset size ino) f.valid)
  write_to-IsValid n buf size offset (err e, s) f = f.valid
  write_to-IsValid n buf size offset (fault, s) f = f.valid

  pub dcfs_write-IsValid :
      (n : ℕ) (path : Bytes) (buf : Memory) (size offset fh : ℕ) (s : Dcfs S)
      → IsValid n s
      → IsValid n (dcfs_write env block_size_in_kb junk path buf size offset fh s).1
  unfolding dcfs_write
  dcfs_write-IsValid n path buf size offset fh s v =
      write_to-IsValid n buf size offset _
        (file_inode-Fetched env block_size_in_kb n (ok none) path fh s (λ a ino e. cc) v)

  close_file-IsValid :
      (n : ℕ) (name : Bytes) (fh : ℕ) (s : Dcfs S)
      → IsValid n s
      → IsValid n (close_file env block_size_in_kb junk name fh s)
  unfolding close_file
  close_file-IsValid n name fh s v =
      let w =
        same_inodes-IsValid n s (release_inode name s.inodes)
          ((inode_table-IsValid env block_size_in_kb s.inodes v.table).2 name) v in
      elim (Bool-cases (ltb 0 fh)) [
        | inl t ↦ rw t (record {
          table = w.table;
          names = w.names;
          counted = w.counted;
          few = w.few;
          free = λ k p. ground (arith, w.free k);
        })
        | inr t ↦ rw t w
      ]

  after_unref-IsValid :
      (n a fh : ℕ) (old : Inode) (s : Dcfs S) (x : Outcome ℕ × Inode × Mid S)
      → s.inodes.heap a ≡ some old
      → x.1.hashname ≡ old.hashname
      → IsValid n s
      → IsValid n (after_unref env block_size_in_kb junk a fh s x).1
  unfolding after_unref
  after_unref-IsValid n a fh old s (ok cnt, ino, m) h e v =
      let w = put_inode-IsValid n s a old ino h e v in
      let s' = put_inode a ino s in
      let t : Inodes S = record s'.inodes { mid = m } in
      let u = same_inodes-IsValid n s' t w.table w in
      elim (Bool-cases (cnt == 0)) [
        | inl z ↦ rw z (close_file-IsValid n ino.hashname fh (record s' { inodes = t }) u)
        | inr z ↦ rw z u
      ]
  after_unref-IsValid n a fh old s (err e, ino, m) h q v = v
  after_unref-IsValid n a fh old s (fault, ino, m) h q v = v

  flush_inode-IsValid :
      (n fh : ℕ) (x : Outcome (Option (ℕ × Inode)) × Dcfs S)
      → Fetched n x
      → IsValid n (flush_inode env block_size_in_kb junk fh x).1
  unfolding flush_inode
  flush_inode-IsValid n fh (ok none, s) f = f.valid
  flush_inode-IsValid n fh (ok (some (a, ino)), s) f =
      after_unref-IsValid n a fh ino s (unref env.ssl (backend_writer env) ino s.inodes.mid)
        (f.pointed a ino refl) (unref-hashname env.ssl (backend_writer env) ino s.inodes.mid)
        f.valid
  flush_inode-IsValid n fh (err e, s) f = f.valid
  flush_inode-IsValid n fh (fault, s) f = f.valid

  pub dcfs_flush-IsValid :
      (n : ℕ) (path : Bytes) (fh : ℕ) (s : Dcfs S)
      → IsValid n s
      → IsValid n (dcfs_flush env block_size_in_kb junk path fh s).1
  unfolding dcfs_flush
  dcfs_flush-IsValid n path fh s v =
      flush_inode-IsValid n fh _
        (file_inode-Fetched env block_size_in_kb n (ok none) path fh s (λ a ino e. cc) v)
