-- ===== src/Inodes.antt =====
-- fs/inode.cpp, `inode_table`: the inodes in memory by the name of their file, and the functions that
-- make, find and release them. An inode is an object behind a pointer: `heap` has the objects by
-- address, `none` where there is none or it was deleted, and `next` is above every address in use.
pub mod Valid
pub mod Fresh
use dcfs_client.Base.{
  ℕ, ◌+◌, Bool, true, false, Option, none, some, List, [], ◌∷◌, Bytes, ◌==◌, if◌then◌else◌,
  bytes_eq, Outcome, ok, err, fault,
}
use dcfs_client.Cache.{put_at}
use dcfs_client.Inode.{Inode, load_inode, fresh_inode}
use dcfs_client.Mid.{Env, Mid}
use dcfs_client.Backend.{FileMeta, create_new_file, read_file_meta}

pub record Inodes (S : Type 0) : Type 0 where
  pub table : List (Bytes × ℕ)
  pub heap : ℕ → Option Inode
  pub next : ℕ
  pub mid : Mid S

-- `inode_table.find`
unfoldable pub lookup : Bytes → List (Bytes × ℕ) → Option ℕ
lookup k [] = none
lookup k ((j, a) ∷ t) = let rest = lookup k t in if bytes_eq j k then some a else rest

-- `inode_table[k] = a`
unfoldable pub insert : Bytes → ℕ → List (Bytes × ℕ) → List (Bytes × ℕ)
insert k a [] = (k, a) ∷ []
insert k a ((j, b) ∷ t) =
    let rest = insert k a t in if bytes_eq j k then (k, a) ∷ t else (j, b) ∷ rest

-- `inode_table.erase`
unfoldable pub erase : Bytes → List (Bytes × ℕ) → List (Bytes × ℕ)
erase k [] = []
erase k ((j, b) ∷ t) = let rest = erase k t in if bytes_eq j k then rest else (j, b) ∷ rest

-- BLOCKMAP_COVER
abbrev pub blockmap_cover : ℕ
blockmap_cover = 512

-- A new object, and the table's entry for it.
unfoldable pub enter : {S : Type 0} → Bytes → Inode → Inodes S → Inodes S
enter name ino s = record s {
  table = insert name s.next s.table;
  heap = put_at s.heap s.next (some ino);
  next = s.next + 1;
}

module _ {S : Type 0} (env : Env S) (block_size_in_kb : ℕ) where
  allocated : Outcome (Bytes × Bytes) × Mid S → Inodes S → Outcome (Option ℕ) × Inodes S
  unfolding enter
  allocated (ok (name, key), m) s = (
    ok (some s.next),
    record (enter name (fresh_inode name block_size_in_kb blockmap_cover key) s) { mid = m },
  )
  allocated (err e, m) s = (ok none, record s { mid = m })
  allocated (fault, m) s = (fault, record s { mid = m })

  -- `none` is NULL.
  unfoldable pub allocate_inode : Inodes S → Outcome (Option ℕ) × Inodes S
  unfolding allocated
  allocate_inode s = allocated (create_new_file env s.mid) s

  loaded : Bytes → Outcome FileMeta × Mid S → Inodes S → Outcome (Option ℕ) × Inodes S
  unfolding enter
  loaded name (ok meta, m) s = (
    ok (some s.next),
    record (enter name
        (load_inode name meta.recordname meta.blockmap_hash block_size_in_kb blockmap_cover
          meta.i_size meta.aes_key)
        s) { mid = m },
  )
  loaded name (err e, m) s = (ok none, record s { mid = m })
  loaded name (fault, m) s = (fault, record s { mid = m })

  unfoldable pub get_inode : Bytes → Inodes S → Outcome (Option ℕ) × Inodes S
  unfolding loaded
  get_inode name s = elim (lookup name s.table) [
    | some a ↦ (ok (some a), s)
    | none ↦ loaded name (read_file_meta env name s.mid) s
  ]

-- `delete` and `erase`.
unfoldable pub release_inode : {S : Type 0} → Bytes → Inodes S → Inodes S
release_inode name s = elim (lookup name s.table) [
  | some a ↦ record s { table = erase name s.table; heap = put_at s.heap a none }
  | none ↦ s
]
