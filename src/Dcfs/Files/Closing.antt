-- ===== src/Dcfs/Files/Closing.antt =====
-- A file is closed for the last time, and opened again: what `dcfs_flush` and `dcfs_open` leave.
use dcfs_client.Base.{
  ℕ, ◌+◌, ◌<◌, ◌≡◌, refl, ap, ◌∙◌, true, false, Option, none, some, Bytes, Memory, Outcome, ok,
  fault, arith, ltb, ◌==◌, bytes_eq_refl, inl, inr, Option-cases,
}
use dcfs_client.Directory.{DirectoryEntry}
use dcfs_client.Cache.{Cache, put_at}
use dcfs_client.Cache.Flush.{flush_cache}
use dcfs_client.Inode.{Inode, ref, unref, load_inode}
use dcfs_client.Mid.{Env, Mid}
use dcfs_client.Inodes.{insert, Inodes, lookup, get_inode, enter, release_inode, blockmap_cover}
use dcfs_client.Inodes.Valid.{lookup-erase, lookup-insert}
use dcfs_client.Backend.{FileMeta, read_file_meta}
use dcfs_client.Backend.Serving.{backend_writer}
use dcfs_client.Dcfs.{fd_table_max, done, Dcfs, look_up, fetch, new_fd, put_inode}
use dcfs_client.Dcfs.Entries.{dcfs_open}
use dcfs_client.Dcfs.Files.{dcfs_flush, close_file}
use dcfs_client.Dcfs.Files.Transfer.{IsOpen, IsOpen-file_inode}

module _ {S : Type 0} where
  release_inode-gone :
      (name : Bytes) (s : Inodes S)
      → (lookup name (release_inode name s).table ≡ none) × ((release_inode name s).mid ≡ s.mid)
  unfolding release_inode
  release_inode-gone name s = elim (Option-cases (lookup name s.table)) [
    | inl n ↦ rw (release_inode, n) (n, refl)
    | inr (a, q) ↦
        rw (release_inode, q)
          (lookup-erase name name s.table ∙ ground (arith, bytes_eq_refl name), refl)
  ]

module _ {S : Type 0} (env : Env S) (block_size_in_kb : ℕ) (junk : Memory) where
  -- The inode is gone, and what the flush left of the backend stays.
  close_file-gone :
      (name : Bytes) (fh : ℕ) (s : Dcfs S)
      → let t = close_file env block_size_in_kb junk name fh s in
        (lookup name t.inodes.table ≡ none)
        × (t.inodes.mid ≡ s.inodes.mid)
        × (t.root ≡ s.root)
        × (t.fd_cnt ≡ s.fd_cnt)
  unfolding close_file
  close_file-gone name fh s =
      let (gone, same) = release_inode-gone name s.inodes in
      (ground arith, ground arith, ground arith, ground arith)

  pub dcfs_flush-closes :
      (path : Bytes) (fh a : ℕ) (ino : Inode) (s : Dcfs S) (c : Cache) (m : Mid S)
      → IsOpen env block_size_in_kb junk fh a ino s
      → ino.ref_count ≡ 1
      → flush_cache ino.host env.ssl (backend_writer env) ino.cache s.inodes.mid ≡ (ok tt, c, m)
      → let (r, t) = dcfs_flush env block_size_in_kb junk path fh s in
        (r ≡ done 0)
        × (lookup ino.hashname t.inodes.table ≡ none)
        × (t.inodes.mid ≡ m)
        × (t.root ≡ s.root)
        × (t.fd_cnt ≡ s.fd_cnt)
  unfolding dcfs_flush unref
  dcfs_flush-closes path fh a ino s c m o once e =
      let found = IsOpen-file_inode env block_size_in_kb junk (ok none) path fh a ino s o in
      let p : (ino.ref_count == 0) ≡ false = ground arith in
      let q : (ino.ref_count == 1) ≡ true = ground arith in
      let ino' : Inode = record ino { cache = c; ref_count = 0 } in
      let s' : Dcfs S = put_inode a ino' s in
      let s'' : Dcfs S = record s' { inodes = record s'.inodes { mid = m } } in
      let (gone, same, root, cnt) = close_file-gone ino.hashname fh s'' in
      rw (dcfs_flush, found, unref, p, q, e) (refl, gone, same, root, cnt)

  abbrev pub loaded_inode : Bytes → FileMeta → Inode
  loaded_inode name meta =
      load_inode name meta.recordname meta.blockmap_hash block_size_in_kb blockmap_cover meta.i_size
        meta.aes_key

  fetch-loads :
      (name : Bytes) (t : Dcfs S) (meta : FileMeta)
      → lookup name t.inodes.table ≡ none
      → read_file_meta env name t.inodes.mid ≡ (ok meta, t.inodes.mid)
      → fetch env block_size_in_kb name t ≡ (
        ok (some (t.inodes.next, loaded_inode name meta)),
        record t { inodes = enter name (loaded_inode name meta) t.inodes },
      )
  unfolding fetch get_inode enter
  fetch-loads name t meta gone e =
      let at : put_at t.inodes.heap t.inodes.next (some (loaded_inode name meta)) t.inodes.next
          ≡ some (loaded_inode name meta) =
        ground arith in
      let t' : Dcfs S = record t { inodes = enter name (loaded_inode name meta) t.inodes } in
      rw (fetch, get_inode, gone, e)
        (ap
          (λ (x : Option Inode).
            (let r : Outcome (Option (ℕ × Inode)) × Dcfs S =
                (elim x [ none ↦ fault | some ino ↦ ok (some (t.inodes.next, ino)) ], t') in
              r))
          at)

  -- The file is loaded, and a descriptor is left for it.
  pub dcfs_open-IsOpen :
      (path : Bytes) (entry : DirectoryEntry) (t : Dcfs S) (meta : FileMeta)
      → (look_up path t).0 ≡ some entry
      → lookup entry.hashname t.inodes.table ≡ none
      → read_file_meta env entry.hashname t.inodes.mid ≡ (ok meta, t.inodes.mid)
      → t.fd_cnt + 1 < fd_table_max
      → let (r, u) = dcfs_open env block_size_in_kb path t in
        (r ≡ done (t.fd_cnt + 1))
        × IsOpen env block_size_in_kb junk
            (t.fd_cnt + 1)
            t.inodes.next
            (ref (loaded_inode entry.hashname meta))
            u
        × (u.inodes.mid ≡ t.inodes.mid)
  unfolding dcfs_open look_up enter new_fd
  dcfs_open-IsOpen path entry t meta found gone e room =
      let loads = fetch-loads entry.hashname (look_up path t).1 meta gone e in
      let left : ltb (t.fd_cnt + 1) fd_table_max ≡ true = ground (arith, room) in
      let loaded = ref (loaded_inode entry.hashname meta) in
      let named : put_at t.fd_table (t.fd_cnt + 1) entry.hashname (t.fd_cnt + 1) ≡ entry.hashname =
        ground arith in
      let object : put_at
            (put_at t.inodes.heap t.inodes.next (some (loaded_inode entry.hashname meta)))
            t.inodes.next (some loaded) t.inodes.next
          ≡ some loaded =
        ground arith in
      rw (dcfs_open, found, loads, left)
        (
          refl,
          record {
            some_fh = omega arith;
            in_table = omega (arith, room);
            entered =
                ap (λ (k : Bytes). lookup k (insert entry.hashname t.inodes.next t.inodes.table))
                  named
                ∙ lookup-insert entry.hashname entry.hashname t.inodes.next t.inodes.table
                ∙ ground (arith, bytes_eq_refl entry.hashname);
            object = object;
          },
          refl,
        )
