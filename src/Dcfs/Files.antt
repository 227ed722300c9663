-- ===== src/Dcfs/Files.antt =====
-- fs/dcfs.cpp: `dcfs_read`, `dcfs_write` and `dcfs_flush`.
pub mod Steps
pub mod Transfer
pub mod NewFile
pub mod Closing
pub mod ReadAgain
use dcfs_client.Base.{
  ℕ, ◌+◌, ◌-◌, Bool, Option, none, some, List, [], Bytes, Memory, add64, ltb, ◌==◌, if◌then◌else◌,
  Outcome, ok, err, fault,
}
use dcfs_client.Cache.{put_at}
use dcfs_client.Inode
use dcfs_client.Inode.{Inode, unref}
use dcfs_client.Mid.{Env, Mid}
use dcfs_client.Inodes.{Inodes, release_inode}
use dcfs_client.Backend.Serving.{backend_reader, backend_writer}
use dcfs_client.Dcfs.{
  return_size, Errno, enoent, eio, Reply, done, failed, crash, Dcfs, put_inode, file_inode,
}

-- `junk` is what `new char[]` holds.
module _ {S : Type 0} (env : Env S) (block_size_in_kb : ℕ) (junk : Memory) where
  after_read : ℕ → ℕ → Dcfs S → Outcome (Memory × Option ℕ) × Inode → Reply (Memory × ℕ) × Dcfs S
  after_read a size s (ok (buf, n), ino) = (return_size size (λ r. (buf, r)), put_inode a ino s)
  after_read a size s (err e, ino) = (failed eio, put_inode a ino s)
  after_read a size s (fault, ino) = (crash, put_inode a ino s)

  read_from : Memory → ℕ → ℕ → Outcome (Option (ℕ × Inode)) × Dcfs S → Reply (Memory × ℕ) × Dcfs S
  unfolding after_read
  read_from buf size offset (ok none, s) = (failed enoent, s)
  read_from buf size offset (ok (some (a, ino)), s) =
      let size' = if ltb ino.size (add64 offset size) then ino.size - offset else size in
      if ltb offset ino.size
      then after_read a size' s
          (Inode.read env.ssl (backend_reader env s.inodes.mid) junk buf offset size' ino)
      else (done (buf, 0), s)
  read_from buf size offset (err e, s) = (crash, s)
  read_from buf size offset (fault, s) = (crash, s)

  -- The memory at `buf` afterwards, and the number of bytes. Without `fi->fh` and without an entry the
  -- pointer is not initialised.
  unfoldable pub dcfs_read : Bytes → Memory → ℕ → ℕ → ℕ → Dcfs S → Reply (Memory × ℕ) × Dcfs S
  unfolding read_from
  dcfs_read path buf size offset fh s =
      read_from buf size offset (file_inode env block_size_in_kb fault path fh s)

  after_write : ℕ → ℕ → Dcfs S → Outcome ℕ × Inode → Reply ℕ × Dcfs S
  after_write a size s (ok n, ino) = (return_size size (λ r. r), put_inode a ino s)
  after_write a size s (err e, ino) = (failed eio, put_inode a ino s)
  after_write a size s (fault, ino) = (crash, put_inode a ino s)

  write_to : Memory → ℕ → ℕ → Outcome (Option (ℕ × Inode)) × Dcfs S → Reply ℕ × Dcfs S
  unfolding after_write
  write_to buf size offset (ok none, s) = (failed enoent, s)
  write_to buf size offset (ok (some (a, ino)), s) =
      after_write a size s
        (Inode.write env.ssl (backend_reader env s.inodes.mid) junk buf offset size ino)
  write_to buf size offset (err e, s) = (crash, s)
  write_to buf size offset (fault, s) = (crash, s)

  unfoldable pub dcfs_write : Bytes → Memory → ℕ → ℕ → ℕ → Dcfs S → Reply ℕ × Dcfs S
  unfolding write_to
  dcfs_write path buf size offset fh s =
      write_to buf size offset (file_inode env block_size_in_kb (ok none) path fh s)

  -- The last reference: the inode is released, and the file descriptor freed.
  close_file : Bytes → ℕ → Dcfs S → Dcfs S
  close_file name fh s =
      let s' : Dcfs S = record s { inodes = release_inode name s.inodes } in
      if ltb 0 fh then record s' { fd_table = put_at s'.fd_table fh [] } else s'

  after_unref : ℕ → ℕ → Dcfs S → Outcome ℕ × Inode × Mid S → Reply ℕ × Dcfs S
  unfolding close_file
  after_unref a fh s (ok cnt, ino, m) =
      let s' : Dcfs S = put_inode a ino s in
      let s'' : Dcfs S = record s' { inodes = record s'.inodes { mid = m } } in
      if cnt == 0 then (done 0, close_file ino.hashname fh s'') else (done fh, s'')
  after_unref a fh s (err e, ino, m) = (crash, s)
  after_unref a fh s (fault, ino, m) = (crash, s)

  flush_inode : ℕ → Outcome (Option (ℕ × Inode)) × Dcfs S → Reply ℕ × Dcfs S
  unfolding after_unref
  flush_inode fh (ok none, s) = (failed enoent, s)
  flush_inode fh (ok (some (a, ino)), s) =
      after_unref a fh s (unref env.ssl (backend_writer env) ino s.inodes.mid)
  flush_inode fh (err e, s) = (crash, s)
  flush_inode fh (fault, s) = (crash, s)

  -- `fi->fh` afterwards.
  unfoldable pub dcfs_flush : Bytes → ℕ → Dcfs S → Reply ℕ × Dcfs S
  unfolding flush_inode
  dcfs_flush path fh s = flush_inode fh (file_inode env block_size_in_kb (ok none) path fh s)
