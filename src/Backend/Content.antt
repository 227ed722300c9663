-- ===== src/Backend/Content.antt =====
-- What a fresh cache has of the file whose first version was written.
use dcfs_client.Base.{
  zero, suc, dec_lt, ok, refl, ℕ, ◌+◌, ◌*◌, ◌/◌, ◌%◌, ◌≤◌, ◌<◌, ◌≡◌, sym, ap, ap₂, ◌∙◌, List, [],
  ◌∷◌, ◌++◌, Bytes, length, get_or, Memory, Outcome, arith, ◌==◌, if◌then◌else◌, Bool-cases, inl,
  inr, subst, clear, Option, none, some,
}
use dcfs_client.Crypto.{decrypt_symmetric}
use dcfs_client.Capsule.{datablock, blockmap}
use dcfs_client.Cache.{
  Host, Cache, BufDesc, hashlen, aes_pad_len, new_cache, fill_bmcache, bm_check, backed,
}
use dcfs_client.Cache.View.{IsServed, AllLoad, content, view, stored, on_backend}
use dcfs_client.Cache.Flush.Places.{AllShort, AllShort-at}
use dcfs_client.Inode.{Inode, load_inode}
use dcfs_client.Inodes.{blockmap_cover}
use dcfs_client.Mid.{Env, Mid}
use dcfs_client.Mid.FirstVersion.{IsFirst}
use dcfs_client.Mid.Kept.{AllDifferent, IsKept, WasKept-IsKept}
use dcfs_client.Mid.Kept.Blocks.{AllKept, IsFirst-AllKept}
use dcfs_client.Mid.Kept.Names.{names_of, length-join_hashes, AllKept-at, length-AllKept}
use dcfs_client.Mid.Payload.{default_block_size, join_hashes}
use dcfs_client.Backend.{FileMeta}
use dcfs_client.Backend.Serving.{backend_reader}
use dcfs_client.Backend.Stored.{
  IsStoring, loaded_map, fill_bmcache-IsKept, bm_check-name, bm_check-behind, backed-ok,
  backed-IsKept,
}

-- The inode that is loaded with the default block size, DEFAULT_BLOCK_SIZE_IN_KB.
abbrev pub reopened : Bytes → FileMeta → Inode
reopened dcname meta =
    load_inode dcname meta.recordname meta.blockmap_hash 16 blockmap_cover meta.i_size meta.aes_key

split_at :
    {A : Type 0} (xs : List A) (i : ℕ)
    → i < length xs
    → (pre : List A) × (x : A) × (post : List A) × (xs ≡ pre ++ x ∷ post) × (length pre ≡ i)
split_at [] i l = absurd (omega arith)
split_at (x ∷ xs) zero l = ([], x, xs, refl, refl)
split_at (x ∷ xs) (suc i) l =
    let (pre, y, post, is, k) = split_at xs i (omega arith) in
    (x ∷ pre, y, post, ap (◌∷◌ x) is, ap suc k)

module _ {S : Type 0} (env : Env S) (log : S → List Bytes) (storing : IsStoring env log) where
  backed_or_zero :
      (h : Host) (junk : Memory) (t : Mid S) (name prev buf : Bytes) (o : ℕ)
      → IsKept env h.hashname datablock (prev ∷ []) buf name t.server
      → length prev ≤ 32
      → length buf ≤ h.block_size + aes_pad_len
      → o < h.block_size
      → o < length (decrypt_symmetric env.ssl h.aes_key none buf 0).out
      → on_backend h env.ssl
          (backend_reader env t)
          junk
          (backed h env.ssl
            (backend_reader env t)
            junk
            (if get_or name 0 0 == 0 then none else some name))
          o
        ≡ (if get_or name 0 0 == 0
            then 0
            else get_or (decrypt_symmetric env.ssl h.aes_key none buf 0).out o 0)
  unfolding backed clear
  backed_or_zero h junk t name prev buf o block short room within plain =
      elim (Bool-cases (get_or name 0 0 == 0)) [
        | inl z ↦ rw z (ground arith)
        | inr nz ↦
            rw nz (backed-IsKept env log storing h junk t name prev buf o block short room plain)
      ]

  abbrev with_map : Host → Memory → List Bytes → Cache
  with_map h junk names = record (new_cache h) { bm = some (loaded_map h junk (join_hashes names)) }

  -- The block map that a fresh cache loads.
  first_map :
      (dcname : Bytes) (meta : FileMeta) (descs : List BufDesc) (t : Mid S)
      (f : IsFirst env dcname meta.aes_key descs t) (junk : Memory)
      → AllDifferent (log t.server)
      → meta.blockmap_hash ≡ f.bm_name
      → length dcname ≤ 32
      → length descs ≤ blockmap_cover
      → let h = (reopened dcname meta).host in
        fill_bmcache h env.ssl (backend_reader env t) junk (new_cache h)
        ≡ (ok tt, with_map h junk (names_of f.blocks))
  unfolding load_inode
  first_map dcname meta descs t f junk different map short all =
      let h = (reopened dcname meta).host in
      let (kept, newest, newest_short, bm) =
        IsFirst-AllKept env log storing.logged dcname meta.aes_key descs t f short in
      let payload = join_hashes (names_of f.blocks) in
      let bm' =
        subst (λ (b : Bytes). IsKept env dcname blockmap (dcname ∷ newest ∷ []) payload b t.server)
          (sym map)
          (WasKept-IsKept env log dcname blockmap (dcname ∷ newest ∷ []) payload f.bm_name t.server
            different bm) in
      let fits : length payload ≤ hashlen * blockmap_cover = omega (
        arith,
        length-join_hashes (names_of f.blocks),
        length-AllKept env log storing.logged dcname descs f.blocks t.server kept,
      ) in
      fill_bmcache-IsKept env log storing h junk t dcname newest payload bm' short newest_short fits

  block_loads :
      (h : Host) (junk : Memory) (t : Mid S) (name prev buf : Bytes)
      → IsKept env h.hashname datablock (prev ∷ []) buf name t.server
      → length prev ≤ 32
      → length buf ≤ h.block_size + aes_pad_len
      → (x : Memory) × (backed h env.ssl
            (backend_reader env t)
            junk
            (if get_or name 0 0 == 0 then none else some name)
          ≡ ok x)
  unfolding backed
  block_loads h junk t name prev buf block short room = elim (Bool-cases (get_or name 0 0 == 0)) [
    | inl z ↦ rw z (_, refl)
    | inr nz ↦ rw nz (backed-ok env log storing h junk t name prev buf block short room)
  ]

  names_load :
      (dcname : Bytes) (meta : FileMeta) (descs : List BufDesc) (t : Mid S)
      (f : IsFirst env dcname meta.aes_key descs t) (junk : Memory)
      → AllDifferent (log t.server)
      → length dcname ≤ 32
      → length descs ≤ blockmap_cover
      → AllShort (default_block_size + aes_pad_len) descs
      → AllLoad
          (reopened dcname meta).host
          env.ssl
          (backend_reader env t)
          junk
          (with_map (reopened dcname meta).host junk (names_of f.blocks)).bm
  unfolding load_inode backed
  names_load dcname meta descs t f junk different short all small i =
      let h = (reopened dcname meta).host in
      let reader = backend_reader env t in
      let names = names_of f.blocks in
      let (kept, _, _, _) =
        IsFirst-AllKept env log storing.logged dcname meta.aes_key descs t f short in
      let count = length-AllKept env log storing.logged dcname descs f.blocks t.server kept in
      let Loads = λ (b : Option Bytes). (x : Memory) × (backed h env.ssl reader junk b ≡ ok x) in
      elim (dec_lt i (length descs)) [
        | no n ↦
            let behind =
              bm_check-behind env log storing h junk t (join_hashes names) i
                (omega (arith, length-join_hashes names, count)) in
            subst Loads (sym behind) (_, refl)
        | yes l ↦
            let (before, d, after, at, place) = split_at descs i l in
            let (pre, post, name, prev, is, k, size, prev_short, block) =
              AllKept-at env log storing.logged dcname before after d f.blocks t.server different (
                subst (λ (ds : List BufDesc). AllKept env log dcname ds f.blocks t.server) at
                  kept) in
            let room =
              AllShort-at (default_block_size + aes_pad_len) before d after
                (subst (AllShort (default_block_size + aes_pad_len)) at small) in
            let found =
              bm_check-name env log storing h junk t pre post name size (omega (arith, k, place)) in
            let here : bm_check h env.ssl reader junk (with_map h junk names).bm i
                ≡ (if get_or name 0 0 == 0 then none else some name) =
              ap₂
                (λ (ns : List Bytes) (j : ℕ).
                  bm_check h env.ssl reader junk (with_map h junk ns).bm j)
                is (sym place ∙ sym k)
              ∙ found in
            subst Loads (sym here) (block_loads h junk t name prev d.buf block prev_short room)
      ]

  -- The server has what a fresh cache of a first version needs.
  pub IsFirst-IsServed :
      (dcname : Bytes) (meta : FileMeta) (descs : List BufDesc) (t : Mid S)
      (f : IsFirst env dcname meta.aes_key descs t) (junk : Memory)
      → AllDifferent (log t.server)
      → meta.blockmap_hash ≡ f.bm_name
      → length dcname ≤ 32
      → length descs ≤ blockmap_cover
      → AllShort (default_block_size + aes_pad_len) descs
      → IsServed
          (reopened dcname meta).host
          env.ssl
          (backend_reader env t)
          junk
          (reopened dcname meta).cache
  unfolding load_inode
  IsFirst-IsServed dcname meta descs t f junk different map short all small =
      let h = (reopened dcname meta).host in
      let filled = first_map dcname meta descs t f junk different map short all in
      (
        ap (λ (z : Outcome (Unit {0}) × Cache). z.0) filled,
        subst (AllLoad h env.ssl (backend_reader env t) junk)
            (sym (ap (λ (z : Outcome (Unit {0}) × Cache). z.1.bm) filled))
            (names_load dcname meta descs t f junk different short all small),
      )

  -- Byte `o` of the block behind `before` in the first write, in a fresh cache: what the key decrypts of
  -- its record, or 0 where the name of the record begins with a 0.
  pub content-IsFirst :
      (dcname : Bytes) (meta : FileMeta) (before after : List BufDesc) (d : BufDesc) (t : Mid S)
      (f : IsFirst env dcname meta.aes_key (before ++ d ∷ after) t) (junk : Memory) (o : ℕ)
      → AllDifferent (log t.server)
      → meta.blockmap_hash ≡ f.bm_name
      → length dcname ≤ 32
      → length (before ++ d ∷ after) ≤ blockmap_cover
      → length before < blockmap_cover
      → length d.buf ≤ default_block_size + aes_pad_len
      → o < default_block_size
      → o < length (decrypt_symmetric env.ssl meta.aes_key none d.buf 0).out
      → (name prev : Bytes) × IsKept env dcname datablock (prev ∷ []) d.buf name t.server
        × (content
              (reopened dcname meta).host
              env.ssl
              (backend_reader env t)
              junk
              (reopened dcname meta).cache
              (length before * default_block_size + o)
            ≡ (if get_or name 0 0 == 0
                then 0
                else get_or (decrypt_symmetric env.ssl meta.aes_key none d.buf 0).out o 0))
  unfolding load_inode new_cache
  content-IsFirst dcname meta before after d t f junk o different map short all many room within
        plain =
      let h = (reopened dcname meta).host in
      let reader = backend_reader env t in
      let (kept, _, _, _) =
        IsFirst-AllKept env log storing.logged dcname meta.aes_key (before ++ d ∷ after) t f
          short in
      let (pre, post, name, prev, is, k, size, prev_short, block) =
        AllKept-at env log storing.logged dcname before after d f.blocks t.server different kept in
      let payload = join_hashes (pre ++ name ∷ post) in
      let filled =
        first_map dcname meta (before ++ d ∷ after) t f junk different map short all
        ∙ ap (λ (l : List Bytes). (ok tt, with_map h junk l)) is in
      let p = length before * default_block_size + o in
      let at : p / default_block_size ≡ length pre = omega arith in
      let rest : p % default_block_size ≡ o = omega arith in
      let found = bm_check-name env log storing h junk t pre post name size (omega (arith, k)) in
      let plaintext = decrypt_symmetric env.ssl meta.aes_key none d.buf 0 in
      let loads : on_backend h env.ssl reader junk
            (backed h env.ssl reader junk (if get_or name 0 0 == 0 then none else some name)) o
          ≡ (if get_or name 0 0 == 0 then 0 else get_or plaintext.out o 0) =
        backed_or_zero h junk t name prev d.buf o block prev_short room within plain in
      (
        name,
        prev,
        block,
        ap
              (λ (z : Outcome (Unit {0}) × Cache).
                view h env.ssl reader junk z.1 (p / default_block_size) (p % default_block_size))
              filled
            ∙ ap₂ (stored h env.ssl reader junk (some (loaded_map h junk payload))) at rest
            ∙ ap
                (λ (b : Option Bytes).
                  on_backend h env.ssl reader junk (backed h env.ssl reader junk b) o)
                found
            ∙ loads,
      )
