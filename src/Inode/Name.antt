-- ===== src/Inode/Name.antt =====
-- No operation on an inode changes which file it is, or the size of its blocks.
use dcfs_client.Base.{ℕ, ◌≡◌, refl, Memory, Outcome, ok, err, fault, arith}
use dcfs_client.Crypto.{OpenSsl}
use dcfs_client.Cache.{Cache, Reader}
use dcfs_client.Cache.Flush.{Writer}
use dcfs_client.Inode.{Inode, ref, read, keep_read, write, keep_write, unref, after_flush}

pub ref-hashname : (ino : Inode) → (ref ino).hashname ≡ ino.hashname
unfolding ref
ref-hashname ino = refl

module _ (ssl : OpenSsl) (reader : Reader) (junk : Memory) where
  keep_read-hashname :
      (ino : Inode) (size : ℕ) (x : Outcome Memory × Cache)
      → (keep_read ssl reader junk ino size x).1.hashname ≡ ino.hashname
  unfolding keep_read
  keep_read-hashname ino size (ok buf, c) = refl
  keep_read-hashname ino size (err e, c) = refl
  keep_read-hashname ino size (fault, c) = refl

  pub read-hashname :
      (buf : Memory) (offset size : ℕ) (ino : Inode)
      → (read ssl reader junk buf offset size ino).1.hashname ≡ ino.hashname
  unfolding read
  read-hashname buf offset size ino = ground (arith, keep_read-hashname ino)

  keep_write-hashname :
      (ino : Inode) (offset size : ℕ) (x : Outcome (Unit {0}) × Cache)
      → (keep_write ssl reader junk ino offset size x).1.hashname ≡ ino.hashname
  unfolding keep_write
  keep_write-hashname ino offset size (ok u, c) = ground arith
  keep_write-hashname ino offset size (err e, c) = refl
  keep_write-hashname ino offset size (fault, c) = refl

  pub write-hashname :
      (buf : Memory) (offset size : ℕ) (ino : Inode)
      → (write ssl reader junk buf offset size ino).1.hashname ≡ ino.hashname
  unfolding write
  write-hashname buf offset size ino = keep_write-hashname ino _ size _

module _ (ssl : OpenSsl) {B : Type 0} (writer : Writer B) where
  after_flush-hashname :
      (ino : Inode) (x : Outcome (Unit {0}) × Cache × B)
      → (after_flush ssl writer ino x).1.hashname ≡ ino.hashname
  unfolding after_flush
  after_flush-hashname ino (ok u, c, b) = refl
  after_flush-hashname ino (err e, c, b) = refl
  after_flush-hashname ino (fault, c, b) = refl

  pub unref-hashname : (ino : Inode) (b : B) → (unref ssl writer ino b).1.hashname ≡ ino.hashname
  unfolding unref
  unref-hashname ino b = ground (arith, after_flush-hashname ino)
