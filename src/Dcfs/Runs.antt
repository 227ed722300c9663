-- ===== src/Dcfs/Runs.antt =====
-- Runs of the mounted file system: FUSE calls the operations in any order, with any arguments.
use dcfs_client.Base.{
  ℕ, suc, ◌+◌, ◌<◌, ◌≡◌, ◌⊎◌, refl, Bytes, Memory, subst, ascii, strcmp_eq, arith, inl, inr,
  Bool-cases,
}
use dcfs_client.Directory.{new_directory, init_readdir}
use dcfs_client.Mid.{Env, Mid}
use dcfs_client.Inodes.{lookup}
use dcfs_client.Dcfs.{Errno, done, failed, Dcfs, dcfs_init}
use dcfs_client.Dcfs.Entries.{dcfs_getattr, dcfs_readdir, dcfs_create, dcfs_open}
use dcfs_client.Dcfs.Entries.Listing.{dcfs_readdir_all}
use dcfs_client.Dcfs.Entries.Steps.{Opens, dcfs_getattr-IsValid, dcfs_create-Opens, dcfs_open-Opens}
use dcfs_client.Dcfs.Files.{dcfs_read, dcfs_write, dcfs_flush}
use dcfs_client.Dcfs.Files.Steps.{dcfs_read-IsValid, dcfs_write-IsValid, dcfs_flush-IsValid}
use dcfs_client.Dcfs.Valid.{IsValid}

module _ {S : Type 0} where
  pub dcfs_init-IsValid : (m : Mid S) → IsValid 0 (dcfs_init m)
  unfolding dcfs_init lookup new_directory
  dcfs_init-IsValid m = record {
    table = λ k a p. cc;
    names = tt;
    counted = refl;
    few = omega arith;
    free = λ k p. refl;
  }

  dcfs_readdir-IsValid :
      (n : ℕ) (path : Bytes) (s : Dcfs S) → IsValid n s → IsValid n (dcfs_readdir path s).1
  unfolding dcfs_readdir init_readdir
  dcfs_readdir-IsValid n path s v = elim (Bool-cases (strcmp_eq path (ascii "/"))) [
    | inl t ↦ rw (dcfs_readdir_all path s t) (record {
      table = v.table;
      names = v.names;
      counted = v.counted;
      few = v.few;
      free = v.free;
    })
    | inr t ↦ rw (dcfs_readdir, t) v
  ]

module _ {S : Type 0} (env : Env S) (block_size_in_kb : ℕ) (junk : Memory) where
  -- Reach n s: s is reached from a mount by operations of which n handed out a file descriptor. A call
  -- of `dcfs_create` or `dcfs_open` that ends the program has no step.
  pub data Reach : ℕ → Dcfs S → Type 0 where
    mounted : (m : Mid S) → Reach 0 (dcfs_init m)
    getattrs :
        (n : ℕ) (s : Dcfs S) (path : Bytes)
        → Reach n s
        → Reach n (dcfs_getattr env block_size_in_kb path s).1
    lists : (n : ℕ) (s : Dcfs S) (path : Bytes) → Reach n s → Reach n (dcfs_readdir path s).1
    creates :
        (n : ℕ) (s t : Dcfs S) (path : Bytes) (fd : ℕ)
        → dcfs_create env block_size_in_kb path s ≡ (done fd, t)
        → Reach n s
        → Reach (suc n) t
    create_fails :
        (n : ℕ) (s t : Dcfs S) (path : Bytes) (e : Errno)
        → dcfs_create env block_size_in_kb path s ≡ (failed e, t)
        → Reach n s
        → Reach n t
    opens :
        (n : ℕ) (s t : Dcfs S) (path : Bytes) (fd : ℕ)
        → dcfs_open env block_size_in_kb path s ≡ (done fd, t)
        → Reach n s
        → Reach (suc n) t
    open_fails :
        (n : ℕ) (s t : Dcfs S) (path : Bytes) (e : Errno)
        → dcfs_open env block_size_in_kb path s ≡ (failed e, t)
        → Reach n s
        → Reach n t
    reads :
        (n : ℕ) (s : Dcfs S) (path : Bytes) (buf : Memory) (size offset fh : ℕ)
        → Reach n s
        → Reach n (dcfs_read env block_size_in_kb junk path buf size offset fh s).1
    writes :
        (n : ℕ) (s : Dcfs S) (path : Bytes) (buf : Memory) (size offset fh : ℕ)
        → Reach n s
        → Reach n (dcfs_write env block_size_in_kb junk path buf size offset fh s).1
    flushes :
        (n : ℕ) (s : Dcfs S) (path : Bytes) (fh : ℕ)
        → Reach n s
        → Reach n (dcfs_flush env block_size_in_kb junk path fh s).1

  -- In every run of the file system from a mount, after n successful calls of `dcfs_create` and
  -- `dcfs_open`: every name in the inode table leads to an object that is that file's inode, the names
  -- of the directory are pairwise distinct as C strings, `fd_cnt` is 10 + n and below the size of
  -- `fd_table`, and every descriptor above it is unused.
  pub Reach-IsValid : (n : ℕ) (s : Dcfs S) → Reach n s → IsValid n s
  Reach-IsValid _ _ (mounted m) = dcfs_init-IsValid m
  Reach-IsValid _ _ (getattrs n s path r) =
      dcfs_getattr-IsValid env block_size_in_kb n path s (Reach-IsValid n s r)
  Reach-IsValid _ _ (lists n s path r) = dcfs_readdir-IsValid n path s (Reach-IsValid n s r)
  Reach-IsValid _ _ (creates n s t path fd e r) =
      (subst (Opens env block_size_in_kb n) e
        (dcfs_create-Opens env block_size_in_kb n path s (Reach-IsValid n s r))).0
  Reach-IsValid _ _ (create_fails n s t path x e r) =
      subst (Opens env block_size_in_kb n) e
        (dcfs_create-Opens env block_size_in_kb n path s (Reach-IsValid n s r))
  Reach-IsValid _ _ (opens n s t path fd e r) =
      (subst (Opens env block_size_in_kb n) e
        (dcfs_open-Opens env block_size_in_kb n path s (Reach-IsValid n s r))).0
  Reach-IsValid _ _ (open_fails n s t path x e r) =
      subst (Opens env block_size_in_kb n) e
        (dcfs_open-Opens env block_size_in_kb n path s (Reach-IsValid n s r))
  Reach-IsValid _ _ (reads n s path buf size offset fh r) =
      dcfs_read-IsValid env block_size_in_kb junk n path buf size offset fh s (Reach-IsValid n s r)
  Reach-IsValid _ _ (writes n s path buf size offset fh r) =
      dcfs_write-IsValid env block_size_in_kb junk n path buf size offset fh s (Reach-IsValid n s r)
  Reach-IsValid _ _ (flushes n s path fh r) =
      dcfs_flush-IsValid env block_size_in_kb junk n path fh s (Reach-IsValid n s r)

  -- In every run of the file system from a mount in which n calls of `dcfs_create` and `dcfs_open` have
  -- succeeded, the next one to succeed, on whatever path, hands out the descriptor n + 11, and it can
  -- only be one of the first 245: closing files gives no descriptor back.
  pub descriptors_run_out :
      (n : ℕ) (s t : Dcfs S)
      → Reach n s
      → (path : Bytes) (fd : ℕ)
      → (dcfs_create env block_size_in_kb path s ≡ (done fd, t))
        ⊎ (dcfs_open env block_size_in_kb path s ≡ (done fd, t))
      → (fd ≡ n + 11) × (n < 245)
  descriptors_run_out n s t r path fd (inl e) =
      let (v, at) =
        subst (Opens env block_size_in_kb n) e
          (dcfs_create-Opens env block_size_in_kb n path s (Reach-IsValid n s r)) in
      (omega (arith, at, v.counted), omega (arith, v.counted, v.few))
  descriptors_run_out n s t r path fd (inr e) =
      let (v, at) =
        subst (Opens env block_size_in_kb n) e
          (dcfs_open-Opens env block_size_in_kb n path s (Reach-IsValid n s r)) in
      (omega (arith, at, v.counted), omega (arith, v.counted, v.few))
