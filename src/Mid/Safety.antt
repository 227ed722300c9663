-- ===== src/Mid/Safety.antt =====
-- What `Modify` may change of the index, and when.
use dcfs_client.Base.{
  ℕ, ◌≡◌, ◌≢◌, refl, ap, ◌∙◌, false, Option, some, List, [], ◌∷◌, Bytes, length, bytes_eq,
  bytes_eq_iff, bytes_discrete, Outcome, ok, err, fault, err_not_found, Exec, lift, continue,
  then-keeps, ◌>>=◌, arith, ◌⊎◌, inl, inr, if◌then◌else◌,
}
use dcfs_client.Capsule.{RecordType}
use dcfs_client.Cache.{BufDesc}
use dcfs_client.Mid.{Env, Mid, latest, touch, compose_record, put_record, get_pdu}
use dcfs_client.Mid.Index.{latest-assign, latest-touch, find-touch}
use dcfs_client.Mid.Modify.{
  InodeRecord, BlockMapRecord, current_records, push_record, push_blocks, push_blockmap, push_inode,
  sealed_key, last_name, check_signature, modify_args, push_version, modify_latest, modify,
}

module _ {S : Type 0} (env : Env S) where
  -- A step that leaves the index alone.
  abbrev Keeps : {A : Type 0} → Exec (Mid S) A → Type 0
  Keeps x = (m : Mid S) → (x m).1.index ≡ m.index

  Keeps-bind :
      {A B : Type 0} (x : Exec (Mid S) A) (k : A → Exec (Mid S) B)
      → Keeps x
      → ((a : A) → Keeps (k a))
      → Keeps (x >>= k)
  Keeps-bind x k h f m =
      then-keeps (λ (s : Mid S). s.index ≡ m.index) (x m).0 k (x m).1 (h m) λ a _. f a (x m).1 ∙ h m

  Keeps-lift : {A : Type 0} (r : Outcome A) → Keeps (lift r)
  Keeps-lift r m = refl

  compose_record-Keeps :
      (t : RecordType) (hashes : List Bytes) (payload : Option Bytes)
      → Keeps (compose_record env t hashes payload)
  unfolding compose_record
  compose_record-Keeps t hashes payload m = ground arith

  put_record-Keeps : (dcname name bytes : Bytes) → Keeps (put_record env dcname name bytes)
  unfolding put_record
  put_record-Keeps dcname name bytes m = refl

  get_pdu-Keeps : (dcname name : Bytes) (room : ℕ) → Keeps (get_pdu env dcname name room)
  unfolding get_pdu
  get_pdu-Keeps dcname name room m = ground arith

  current_records-Keeps :
      (dcname name aes_key : Bytes) → Keeps (current_records env dcname name aes_key)
  unfolding current_records get_pdu
  current_records-Keeps dcname name aes_key m = ground arith

  push_record-Keeps :
      (dcname : Bytes) (t : RecordType) (hashes : List Bytes) (payload : Bytes)
      → Keeps (push_record env dcname t hashes payload)
  unfolding push_record
  push_record-Keeps dcname t hashes payload =
      Keeps-bind (compose_record env t hashes (some payload)) _
        (compose_record-Keeps t hashes (some payload))
        λ c.
          Keeps-bind (put_record env dcname c.1 c.0) _ (put_record-Keeps dcname c.1 c.0) λ _ m. refl

  push_blocks-Keeps :
      (dcname newest : Bytes) (ds : List BufDesc) (prev : Bytes)
      → Keeps (push_blocks env dcname newest ds prev)
  unfolding push_blocks
  push_blocks-Keeps dcname newest [] prev = λ m. refl
  push_blocks-Keeps dcname newest (d ∷ ds) prev =
      Keeps-bind (push_record env dcname _ _ d.buf) _ (push_record-Keeps dcname _ _ d.buf) λ name.
        Keeps-bind (push_blocks env dcname newest ds name) _
          (push_blocks-Keeps dcname newest ds name) λ rest m. refl

  push_blockmap-Keeps :
      (dcname : Bytes) (ino : InodeRecord) (bm : BlockMapRecord) (blocks : List (ℕ × Bytes))
      → Keeps (push_blockmap env dcname ino bm blocks)
  unfolding push_blockmap
  push_blockmap-Keeps dcname ino bm blocks =
      Keeps-bind (lift (last_name blocks)) _ (Keeps-lift (last_name blocks))
        λ newest. push_record-Keeps dcname _ _ _

  push_inode-Keeps :
      (dcname old : Bytes) (ino : InodeRecord) (bm_name : Bytes) (n : ℕ)
      → Keeps (push_inode env dcname old ino bm_name n)
  unfolding push_inode
  push_inode-Keeps dcname old ino bm_name n =
      Keeps-bind (lift (sealed_key env ino.key)) _ (Keeps-lift (sealed_key env ino.key))
        λ key. push_record-Keeps dcname _ _ _

  -- The two ways that a `Modify` of `dcname` can end: it did not return NO_ERR and no entry reads
  -- otherwise than before, or it did and the entry of `dcname` alone has a new name.
  abbrev pub Ends : Bytes → Mid S → Outcome (Unit {0}) × Mid S → Type 0
  Ends dcname m x =
      ((x.0 ≢ ok tt) × ((k : Bytes) → latest k x.1.index ≡ latest k m.index))
      ⊎ ((name : Bytes) × (x.0 ≡ ok tt)
          × ((k : Bytes)
              → latest k x.1.index ≡ (if bytes_eq dcname k then name else latest k m.index)))

  abbrev Same : Mid S → Mid S → Type 0
  Same m n = (k : Bytes) → latest k n.index ≡ latest k m.index

  Ends-bind :
      {A : Type 0} (dcname : Bytes) (m : Mid S) (r : Outcome A) (n : Mid S)
      (k : A → Exec (Mid S) (Unit {0}))
      → Same m n
      → ((a : A) → Ends dcname m (k a n))
      → Ends dcname m (continue r k n)
  Ends-bind dcname m (ok a) n k h f = f a
  Ends-bind dcname m (err e) n k h f = inl ((λ e. cc), h)
  Ends-bind dcname m fault n k h f = inl ((λ e. cc), h)

  move : {A : Type 0} (m n : Mid S) (x : Exec (Mid S) A) → Keeps x → Same m n → Same m (x n).1
  move m n x keeps h k = ap (latest k) (keeps n) ∙ h k

  push_version-Ends :
      (dcname : Bytes) (descs : List BufDesc) (aes_key : Bytes) (m n : Mid S)
      → Same m n
      → Ends dcname m (push_version env dcname descs aes_key n)
  unfolding push_version
  push_version-Ends dcname descs aes_key m n same =
      let old = latest dcname n.index in
      let x1 = current_records env dcname old aes_key in
      let s1 = move m n x1 (current_records-Keeps dcname old aes_key) same in
      Ends-bind dcname m (x1 n).0 (x1 n).1 _ s1 λ records.
        let n1 = (x1 n).1 in
        let newest = records.1.hash_to_latest_data_block in
        let x2 = push_blocks env dcname newest descs [] in
        let s2 = move m n1 x2 (push_blocks-Keeps dcname newest descs []) s1 in
        Ends-bind dcname m (x2 n1).0 (x2 n1).1 _ s2 λ blocks.
          let n2 = (x2 n1).1 in
          let x3 = push_blockmap env dcname records.0 records.1 blocks in
          let s3 = move m n2 x3 (push_blockmap-Keeps dcname records.0 records.1 blocks) s2 in
          Ends-bind dcname m (x3 n2).0 (x3 n2).1 _ s3 λ bm_name.
            let n3 = (x3 n2).1 in
            let x4 = push_inode env dcname old records.0 bm_name (length descs) in
            let s4 =
              move m n3 x4 (push_inode-Keeps dcname old records.0 bm_name (length descs)) s3 in
            Ends-bind dcname m (x4 n3).0 (x4 n3).1 _ s4 λ name. inr (
              name,
              refl,
              λ k.
                  latest-assign dcname k name (x4 n3).1.index
                  ∙ ap (λ (v : Bytes). if bytes_eq dcname k then name else v) (s4 k),
            )

  -- The test for a missing entry is dead: a client that names the latest version gets past it to the
  -- making of a new one, also for a capsule that the index does not know, whose latest version is "".
  pub modify_latest-current :
      (dcname : Bytes) (descs : List BufDesc) (inode_hash aes_key : Bytes) (m : Mid S)
      → inode_hash ≡ latest dcname m.index
      → modify_latest env dcname descs inode_hash aes_key m
        ≡ push_version env dcname descs aes_key (record m { index = touch dcname m.index })
  unfolding modify_latest
  modify_latest-current dcname descs inode_hash aes_key m e =
      rw ((bytes_eq_iff inode_hash (latest dcname m.index)).1 e, find-touch dcname m.index) refl

  modify_latest_stale :
      (dcname : Bytes) (descs : List BufDesc) (inode_hash aes_key : Bytes) (m : Mid S)
      → inode_hash ≢ latest dcname m.index
      → let (r, n) = modify_latest env dcname descs inode_hash aes_key m in
        (r ≡ err err_not_found)
        × (n.server ≡ m.server)
        × ((k : Bytes) → latest k n.index ≡ latest k m.index)
  unfolding modify_latest
  modify_latest_stale dcname descs inode_hash aes_key m d =
      let t : bytes_eq inode_hash (latest dcname m.index) ≡ false =
        ground (arith, bytes_eq_iff inode_hash (latest dcname m.index), d) in
      rw t (refl, refl, λ k. latest-touch dcname k m.index)

  modify_latest-Ends :
      (dcname : Bytes) (descs : List BufDesc) (inode_hash aes_key : Bytes) (m : Mid S)
      → Ends dcname m (modify_latest env dcname descs inode_hash aes_key m)
  modify_latest-Ends dcname descs inode_hash aes_key m =
      elim (bytes_discrete inode_hash (latest dcname m.index)) [
        | yes e ↦
            rw (modify_latest-current dcname descs inode_hash aes_key m e)
              (push_version-Ends dcname descs aes_key m _ (λ k. latest-touch dcname k m.index))
        | no d ↦
            let (r, _, same) = modify_latest_stale dcname descs inode_hash aes_key m d in
            inl ((λ e. cc), same)
      ]

  -- However `Modify` ends, no capsule but `dcname` has another latest version afterwards; and
  -- `dcname` has one only if NO_ERR was returned.
  pub modify-Ends :
      (dcname : Bytes) (descs : List BufDesc) (inode_hash aes_key sig : Bytes) (m : Mid S)
      → Ends dcname m (modify env dcname descs inode_hash aes_key sig m)
  unfolding modify
  modify-Ends dcname descs inode_hash aes_key sig m =
      Ends-bind dcname m (check_signature env (modify_args dcname descs inode_hash aes_key) sig) m _
        (λ k. refl) λ _. modify_latest-Ends dcname descs inode_hash aes_key m

  -- A `Modify` that names another version than the latest never goes through, whatever its blocks, key
  -- and signature: it returns what the check of the signature returned, if that is not NO_ERR, and
  -- ERR_NOT_FOUND otherwise; nothing was sent to the server, and every capsule has the latest version
  -- that it had.
  pub modify_stale :
      (dcname : Bytes) (descs : List BufDesc) (inode_hash aes_key sig : Bytes) (m : Mid S)
      → inode_hash ≢ latest dcname m.index
      → let (r, n) = modify env dcname descs inode_hash aes_key sig m in
        let check = check_signature env (modify_args dcname descs inode_hash aes_key) sig in
        ((check ≡ ok tt) × (r ≡ err err_not_found) ⊎ (check ≢ ok tt) × (r ≡ check))
        × (n.server ≡ m.server)
        × ((k : Bytes) → latest k n.index ≡ latest k m.index)
  unfolding modify
  modify_stale dcname descs inode_hash aes_key sig m d =
      by_check (check_signature env (modify_args dcname descs inode_hash aes_key) sig)
    where
      by_check :
          (c : Outcome (Unit {0}))
          → let (r, n) = continue c (λ _. modify_latest env dcname descs inode_hash aes_key) m in
            ((c ≡ ok tt) × (r ≡ err err_not_found) ⊎ (c ≢ ok tt) × (r ≡ c))
            × (n.server ≡ m.server)
            × ((k : Bytes) → latest k n.index ≡ latest k m.index)
      by_check (ok tt) =
          let (r, server, same) = modify_latest_stale dcname descs inode_hash aes_key m d in
          (inl (refl, r), server, same)
      by_check (err e) = (inr ((λ x. cc), refl), refl, λ k. refl)
      by_check fault = (inr ((λ x. cc), refl), refl, λ k. refl)
