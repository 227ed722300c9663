-- ===== src/Mid/FirstVersion.antt =====
-- The inode record that the first `Modify` of a capsule writes.
use dcfs_client.Base.{
  ℕ, ◌≡◌, refl, sym, ap, ◌∙◌, some, List, [], ◌∷◌, Bytes, length, of_bytes, bytes_at, bytes_eq_refl,
  Outcome, ok, then-ok, then-step, ◌>>=◌, subst, Exec, ok-injective,
}
use dcfs_client.Capsule.{inode, blockmap}
use dcfs_client.Cache.{BufDesc}
use dcfs_client.Mid.{Env, Mid, find, latest, touch, assign}
use dcfs_client.Mid.Index.{find-assign, latest-touch}
use dcfs_client.Mid.Payload.{inode_payload}
use dcfs_client.Mid.Modify.{
  InodeRecord, BlockMapRecord, current_records, push_blocks, push_blockmap, push_inode, sealed_key,
  last_name, if_empty, new_isize, push_version, modify_latest,
}
use dcfs_client.Mid.Safety.{modify_latest-current}
use dcfs_client.Mid.Written.{IsWritten, push_record-IsWritten}

abbrev pub no_inode : Bytes → InodeRecord
no_inode aes_key = record { isize = 0; blockmap_hash = []; key = bytes_at (of_bytes aes_key) 0 16 }

abbrev pub no_map : BlockMapRecord
no_map = record { data_hashes = []; hash_to_latest_data_block = [] }

module _ {S : Type 0} (env : Env S) where
  -- A version of `dcname` made from `ino` and `bm`, behind the version `old`, of the blocks `descs`: the
  -- calls that made it, and the records that they wrote.
  pub record IsVersion (dcname old : Bytes) (ino : InodeRecord) (bm : BlockMapRecord)
      (descs : List BufDesc) (m : Mid S) : Type 0 where
    pub start : Mid S
    pub after_blocks : Mid S
    pub after_map : Mid S
    pub after_inode : Mid S
    pub blocks : List (ℕ × Bytes)
    pub bm_name : Bytes
    pub name : Bytes
    pub pushed :
        push_blocks env dcname bm.hash_to_latest_data_block descs [] start
        ≡ (ok blocks, after_blocks)
    pub mapped : push_blockmap env dcname ino bm blocks after_blocks ≡ (ok bm_name, after_map)
    pub placed :
        push_inode env dcname old ino bm_name (length descs) after_map ≡ (ok name, after_inode)
    pub last : after_inode.server ≡ m.server
    pub key : Bytes
    pub sealed : sealed_key env ino.key ≡ ok key
    pub current : find dcname m.index ≡ some name
    pub bm_hashes : List Bytes
    pub bm_payload : Bytes
    pub block_map : IsWritten env dcname blockmap bm_hashes bm_payload bm_name after_map.server
    pub inode_record :
        IsWritten env dcname inode
          (if_empty old dcname ∷ bm_name ∷ [])
          (inode_payload (new_isize ino.isize (length descs)) key)
          name
          m.server

  -- The first version, under the key `aes_key`.
  abbrev pub IsFirst : Bytes → Bytes → List BufDesc → Mid S → Type 0
  IsFirst dcname aes_key descs m = IsVersion dcname [] (no_inode aes_key) no_map descs m

  current_records-first :
      (dcname name aes_key : Bytes) (m : Mid S)
      → name ≡ []
      → current_records env dcname name aes_key m ≡ (ok (no_inode aes_key, no_map), m)
  unfolding current_records
  current_records-first dcname name aes_key m e = rw (current_records, e) refl

  push_blockmap-IsWritten :
      (dcname : Bytes) (ino : InodeRecord) (bm : BlockMapRecord) (blocks : List (ℕ × Bytes))
      (name : Bytes) (s t : Mid S)
      → push_blockmap env dcname ino bm blocks s ≡ (ok name, t)
      → (hashes : List Bytes) × (payload : Bytes) × IsWritten env dcname blockmap hashes payload
          name t.server
  unfolding push_blockmap
  push_blockmap-IsWritten dcname ino bm blocks name s t e =
      let (newest, p, q) =
        then-ok (last_name blocks) _ s (ap (λ (z : Outcome Bytes × Mid S). z.0) e) in
      (_, _, push_record-IsWritten env dcname blockmap _ _ name s t (sym q ∙ e))

  push_inode-IsWritten :
      (dcname old : Bytes) (ino : InodeRecord) (bm_name : Bytes) (n : ℕ) (name : Bytes)
      (s t : Mid S)
      → push_inode env dcname old ino bm_name n s ≡ (ok name, t)
      → (key : Bytes) × (sealed_key env ino.key ≡ ok key)
        × IsWritten env dcname inode
            (if_empty old dcname ∷ bm_name ∷ [])
            (inode_payload (new_isize ino.isize n) key)
            name
            t.server
  unfolding push_inode
  push_inode-IsWritten dcname old ino bm_name n name s t e =
      let (key, p, q) =
        then-ok (sealed_key env ino.key) _ s (ap (λ (z : Outcome Bytes × Mid S). z.0) e) in
      (key, p, push_record-IsWritten env dcname inode _ _ name s t (sym q ∙ e))

  -- Of `push_version`: the index set, after what comes before it.
  abbrev set_index : Bytes → Bytes → Exec (Mid S) (Unit {0})
  set_index dcname name m = (ok tt, record m { index = assign dcname name m.index })

  set_index-sets :
      (dcname name : Bytes) (s t : Mid S)
      → set_index dcname name s ≡ (ok tt, t)
      → (find dcname t.index ≡ some name) × (s.server ≡ t.server)
  set_index-sets dcname name s t d =
      let is : record s { index = assign dcname name s.index } ≡ t =
        ap (λ (o : Outcome (Unit {0}) × Mid S). o.1) d in
      (
        ap (λ (o : Mid S). find dcname o.index) (sym is)
            ∙ find-assign dcname dcname name s.index
            ∙ rw (bytes_eq_refl dcname) refl,
        ap (λ (o : Mid S). o.server) is,
      )

  abbrev inode_stage : Bytes → Bytes → InodeRecord → ℕ → Bytes → Exec (Mid S) (Unit {0})
  inode_stage dcname old ino n bm_name =
      push_inode env dcname old ino bm_name n >>= set_index dcname

  abbrev blockmap_stage :
      Bytes → Bytes → InodeRecord → BlockMapRecord → ℕ → List (ℕ × Bytes) → Exec (Mid S) (Unit {0})
  blockmap_stage dcname old ino bm n blocks =
      push_blockmap env dcname ino bm blocks >>= inode_stage dcname old ino n

  abbrev blocks_stage :
      Bytes → Bytes → List BufDesc → InodeRecord × BlockMapRecord → Exec (Mid S) (Unit {0})
  blocks_stage dcname old descs records =
      push_blocks env dcname (records.1).hash_to_latest_data_block descs []
      >>= blockmap_stage dcname old (records.0) (records.1) (length descs)

  blocks_stage-IsVersion :
      (dcname old : Bytes) (descs : List BufDesc) (ino : InodeRecord) (bm : BlockMapRecord)
      (m t : Mid S)
      → blocks_stage dcname old descs (ino, bm) m ≡ (ok tt, t)
      → IsVersion dcname old ino bm descs t
  blocks_stage-IsVersion dcname old descs ino bm m t e =
      let n = length descs in
      let x = push_blocks env dcname bm.hash_to_latest_data_block descs [] m in
      let (blocks, p, f) = then-step x (blockmap_stage dcname old ino bm n) e in
      let y = push_blockmap env dcname ino bm blocks x.1 in
      let (bm_name, q, g) = then-step y (inode_stage dcname old ino n) f in
      let z = push_inode env dcname old ino bm_name n y.1 in
      let (name, r, d) = then-step z (set_index dcname) g in
      let (hashes, payload, w) = push_blockmap-IsWritten dcname ino bm blocks bm_name x.1 y.1 q in
      let (key, sealed, v) = push_inode-IsWritten dcname old ino bm_name n name y.1 z.1 r in
      let (current, server) = set_index-sets dcname name z.1 t d in
      record {
        start = m;
        after_blocks = x.1;
        after_map = y.1;
        after_inode = z.1;
        blocks = blocks;
        bm_name = bm_name;
        name = name;
        pushed = p;
        mapped = q;
        placed = r;
        last = server;
        key = key;
        sealed = sealed;
        current = current;
        bm_hashes = hashes;
        bm_payload = payload;
        block_map = w;
        inode_record =
            subst
              (IsWritten env dcname inode (if_empty old dcname ∷ bm_name ∷ [])
                (inode_payload (new_isize ino.isize n) key) name)
              server v;
      }

  -- A `Modify` that returned NO_ERR got the records of the version before it, and made a new one.
  pub push_version-IsVersion :
      (dcname : Bytes) (descs : List BufDesc) (aes_key : Bytes) (m t : Mid S)
      → push_version env dcname descs aes_key m ≡ (ok tt, t)
      → (ino : InodeRecord) × (bm : BlockMapRecord) × ((current_records env dcname
            (latest dcname m.index)
            aes_key
            m).0
          ≡ ok (ino, bm))
        × IsVersion dcname (latest dcname m.index) ino bm descs t
  unfolding push_version
  push_version-IsVersion dcname descs aes_key m t e =
      let old = latest dcname m.index in
      let x = current_records env dcname old aes_key m in
      let (records, p, f) = then-step x (blocks_stage dcname old descs) e in
      (
        records.0,
        records.1,
        ap (λ (z : Outcome (InodeRecord × BlockMapRecord) × Mid S). z.0) p,
        blocks_stage-IsVersion dcname old descs (records.0) (records.1) x.1 t f,
      )

  push_version-IsFirst :
      (dcname : Bytes) (descs : List BufDesc) (aes_key : Bytes) (m t : Mid S)
      → latest dcname m.index ≡ []
      → push_version env dcname descs aes_key m ≡ (ok tt, t)
      → IsFirst dcname aes_key descs t
  push_version-IsFirst dcname descs aes_key m t empty e =
      let (ino, bm, p, v) = push_version-IsVersion dcname descs aes_key m t e in
      let none_yet = current_records-first dcname (latest dcname m.index) aes_key m empty in
      let is : (no_inode aes_key, no_map) ≡ (ino, bm) =
        ok-injective
          (sym (ap (λ (z : Outcome (InodeRecord × BlockMapRecord) × Mid S). z.0) none_yet) ∙ p) in
      let first =
        subst
          (λ (r : InodeRecord × BlockMapRecord).
            IsVersion dcname (latest dcname m.index) (r.0) (r.1) descs t)
          (sym is) v in
      subst (λ (o : Bytes). IsVersion dcname o (no_inode aes_key) no_map descs t) empty first

  -- A `Modify` that named no version of a capsule without one, and returned NO_ERR.
  pub modify_latest-IsFirst :
      (dcname : Bytes) (descs : List BufDesc) (aes_key : Bytes) (m t : Mid S)
      → latest dcname m.index ≡ []
      → modify_latest env dcname descs [] aes_key m ≡ (ok tt, t)
      → IsFirst dcname aes_key descs t
  modify_latest-IsFirst dcname descs aes_key m t empty e =
      push_version-IsFirst dcname descs aes_key (record m { index = touch dcname m.index }) t
        (latest-touch dcname dcname m.index ∙ empty)
        (sym (modify_latest-current env dcname descs [] aes_key m (sym empty)) ∙ e)
