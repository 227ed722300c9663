-- ===== src/Inodes/Valid.antt =====
-- The pointers of the inode table: none dangles, and no two files share an object.
use dcfs_client.Base.{
  ℕ, ◌<◌, ◌≡◌, ◌≢◌, refl, sym, ap, ◌∙◌, true, false, none, some, List, [], ◌∷◌, Bytes, ◌==◌,
  if◌then◌else◌, bytes_eq, bytes_eq_iff, bytes_eq_refl, Outcome, ok, err, fault, ok-injective,
  arith, Bool-cases, Option-cases, inl, inr,
}
use dcfs_client.Cache.{put_at}
use dcfs_client.Inode.{Inode, load_inode, fresh_inode}
use dcfs_client.Mid.{Env, Mid}
use dcfs_client.Backend.{FileMeta, create_new_file, read_file_meta}
use dcfs_client.Inodes.{
  Inodes, lookup, insert, erase, enter, blockmap_cover, allocated, allocate_inode, loaded,
  get_inode, release_inode,
}

other_name : (j k : Bytes) → bytes_eq j k ≡ false → j ≢ k
other_name j k y = ground (arith, bytes_eq_iff j k)

other_address : (b a : ℕ) → b ≢ a → (b == a) ≡ false
other_address b a n = ground arith

==_refl : (n : ℕ) → (n == n) ≡ true
==_refl n = ground arith

some-injective : {A : Type 0} {a b : A} → some a ≡ some b → a ≡ b
some-injective e = cc

pub lookup-insert :
    (k l : Bytes) (a : ℕ) (t : List (Bytes × ℕ))
    → lookup l (insert k a t) ≡ (if bytes_eq k l then some a else lookup l t)
unfolding lookup insert
lookup-insert k l a [] = refl
lookup-insert k l a ((j, b) ∷ t) =
    ground (arith, bytes_eq_iff k l, bytes_eq_iff j k, bytes_eq_iff j l, lookup-insert k l a t)

pub lookup-erase :
    (k l : Bytes) (t : List (Bytes × ℕ))
    → lookup l (erase k t) ≡ (if bytes_eq k l then none else lookup l t)
unfolding lookup erase
lookup-erase k l [] = ground arith
lookup-erase k l ((j, b) ∷ t) =
    ground (arith, bytes_eq_iff k l, bytes_eq_iff j k, bytes_eq_iff j l, lookup-erase k l t)

module _ {S : Type 0} where
  -- The object that a file's entry points to is there, below `next`, and is that file's inode.
  abbrev pub IsValid : Inodes S → Type 0
  IsValid s =
      (k : Bytes) (a : ℕ)
      → lookup k s.table ≡ some a
      → (a < s.next) × (ino : Inode) × (s.heap a ≡ some ino) × (ino.hashname ≡ k)

  -- Two files that have the same address are the same.
  IsValid-separate :
      (s : Inodes S)
      → IsValid s
      → (k l : Bytes) (a : ℕ) → lookup k s.table ≡ some a
      → lookup l s.table ≡ some a
      → k ≡ l
  IsValid-separate s v k l a p q =
      let (_, i, hi, ki) = v k a p in
      let (_, j, hj, lj) = v l a q in
      sym ki ∙ ap (λ (i : Inode). i.hashname) (some-injective (sym hi ∙ hj)) ∙ lj

  enter-IsValid :
      (name : Bytes) (ino : Inode) (s : Inodes S)
      → ino.hashname ≡ name
      → IsValid s
      → IsValid (enter name ino s)
  unfolding enter
  enter-IsValid name ino s e v k a p = elim (Bool-cases (bytes_eq name k)) [
    | inl t ↦
        let new : some s.next ≡ some a = rw t at (sym (lookup-insert name k s.next s.table) ∙ p) in
        let is = some-injective new in
        (omega (arith, is), ino, rw (sym is, ==_refl s.next) refl, e ∙ (bytes_eq_iff name k).0 t)
    | inr f ↦
        let old : lookup k s.table ≡ some a =
          rw f at (sym (lookup-insert name k s.next s.table) ∙ p) in
        let (l, i, h, q) = v k a old in
        let n : (s.next == a) ≡ false = ground arith in (omega (arith, l), i, rw (n) h, q)
  ]

  release-missing :
      (name : Bytes) (s : Inodes S) → lookup name s.table ≡ none → release_inode name s ≡ s
  unfolding release_inode
  release-missing name s t = rw (release_inode, t) refl

  release-present :
      (name : Bytes) (s : Inodes S) (a : ℕ)
      → lookup name s.table ≡ some a
      → release_inode name s ≡ record s { table = erase name s.table; heap = put_at s.heap a none }
  unfolding release_inode
  release-present name s a t = rw (release_inode, t) refl

  release-IsValid : (name : Bytes) (s : Inodes S) → IsValid s → IsValid (release_inode name s)
  release-IsValid name s v = elim (Option-cases (lookup name s.table)) [
    | inl t ↦ rw (release-missing name s t) v
    | inr (b, t) ↦
        rw (release-present name s b t)
          (λ k a p. kept b t k a (sym (lookup-erase name k s.table) ∙ p))
  ]
    where
      kept :
          (b : ℕ)
          → lookup name s.table ≡ some b
          → (k : Bytes) (a : ℕ) → (if bytes_eq name k then none else lookup k s.table) ≡ some a
          → (a < s.next) × (ino : Inode) × (put_at s.heap b none a ≡ some ino) × (ino.hashname ≡ k)
      kept b t k a p = elim (Bool-cases (bytes_eq name k)) [
        | inl y ↦ let no : none ≡ some a = rw y at p in cc
        | inr y ↦
            let old : lookup k s.table ≡ some a = rw y at p in
            let (l, i, h, q) = v k a old in
            let other : (b == a) ≡ false =
              other_address b a
                λ e. other_name name k y (IsValid-separate s v name k a (t ∙ ap some e) old) in
            (l, i, rw other h, q)
      ]

  module _ (env : Env S) (block_size_in_kb : ℕ) where
    allocated-IsValid :
        (x : Outcome (Bytes × Bytes) × Mid S) (s : Inodes S)
        → IsValid s
        → IsValid (allocated env block_size_in_kb x s).1
    unfolding allocated fresh_inode load_inode
    allocated-IsValid (ok (name, key), m) s v =
        enter-IsValid name (fresh_inode name block_size_in_kb blockmap_cover key) s refl v
    allocated-IsValid (err e, m) s v = v
    allocated-IsValid (fault, m) s v = v

    loaded-IsValid :
        (name : Bytes) (x : Outcome FileMeta × Mid S) (s : Inodes S)
        → IsValid s
        → IsValid (loaded env block_size_in_kb name x s).1
    unfolding loaded load_inode
    loaded-IsValid name (ok meta, m) s v =
        enter-IsValid name
          (load_inode name meta.recordname meta.blockmap_hash block_size_in_kb blockmap_cover
            meta.i_size meta.aes_key)
          s refl v
    loaded-IsValid name (err e, m) s v = v
    loaded-IsValid name (fault, m) s v = v

    get_inode-missing :
        (name : Bytes) (s : Inodes S)
        → lookup name s.table ≡ none
        → get_inode env block_size_in_kb name s
          ≡ loaded env block_size_in_kb name (read_file_meta env name s.mid) s
    unfolding get_inode
    get_inode-missing name s t = rw (get_inode, t) refl

    pub get_inode-present :
        (name : Bytes) (s : Inodes S) (a : ℕ)
        → lookup name s.table ≡ some a
        → get_inode env block_size_in_kb name s ≡ (ok (some a), s)
    unfolding get_inode
    get_inode-present name s a t = rw (get_inode, t) refl

    get_inode-IsValid :
        (name : Bytes) (s : Inodes S)
        → IsValid s
        → IsValid (get_inode env block_size_in_kb name s).1
    get_inode-IsValid name s v = elim (Option-cases (lookup name s.table)) [
      | inl t ↦
          rw (get_inode-missing name s t) (loaded-IsValid name (read_file_meta env name s.mid) s v)
      | inr (b, t) ↦ rw (get_inode-present name s b t) v
    ]

    -- When the object under each name of the table is there and is the inode of that file, so it is
    -- after `allocate_inode`, `get_inode` and `release_inode`, failed calls included.
    pub inode_table-IsValid :
        (s : Inodes S)
        → IsValid s
        → IsValid (allocate_inode env block_size_in_kb s).1
          × ((name : Bytes) → IsValid (get_inode env block_size_in_kb name s).1)
          × ((name : Bytes) → IsValid (release_inode name s))
    unfolding allocate_inode
    inode_table-IsValid s v = (
      allocated-IsValid (create_new_file env s.mid) s v,
      (λ name. get_inode-IsValid name s v),
      λ name. release-IsValid name s v,
    )

    loaded_again :
        (name : Bytes) (x : Outcome FileMeta × Mid S) (s : Inodes S) (a : ℕ)
        → (loaded env block_size_in_kb name x s).0 ≡ ok (some a)
        → lookup name (loaded env block_size_in_kb name x s).1.table ≡ some a
    unfolding loaded enter
    loaded_again name (ok meta, m) s a e =
        lookup-insert name name s.next s.table ∙ ground (arith, bytes_eq_refl name)
    loaded_again name (err x, m) s a e = cc
    loaded_again name (fault, m) s a e = cc

    entry_again :
        (name : Bytes) (s : Inodes S) (a : ℕ)
        → (get_inode env block_size_in_kb name s).0 ≡ ok (some a)
        → lookup name (get_inode env block_size_in_kb name s).1.table ≡ some a
    entry_again name s a e = elim (Option-cases (lookup name s.table)) [
      | inl t ↦
          let g = get_inode-missing name s t in
          rw g (loaded_again name (read_file_meta env name s.mid) s a (rw g at e))
      | inr (b, t) ↦ let g = get_inode-present name s b t in rw g (t ∙ ok-injective (rw g at e))
    ]

    -- An inode that `get_inode` returned for a file is what the next `get_inode` for it returns: the
    -- same object, with nothing read and nothing changed.
    pub get_inode_again :
        (name : Bytes) (s : Inodes S) (a : ℕ)
        → (get_inode env block_size_in_kb name s).0 ≡ ok (some a)
        → let t = (get_inode env block_size_in_kb name s).1 in
          get_inode env block_size_in_kb name t ≡ (ok (some a), t)
    get_inode_again name s a e =
        get_inode-present name (get_inode env block_size_in_kb name s).1 a (entry_again name s a e)
