-- ===== src/Mid/Kept/Blocks.antt =====
-- The blocks of a version, its block map and its inode record, as the server keeps them when `Modify`
-- has returned.
use dcfs_client.Base.{
  ℕ, ◌≡◌, ◌≤◌, sym, ap, ◌∙◌, List, [], ◌∷◌, map, Bytes, length, Outcome, ok, fault, ok-injective,
  then-step, subst, arith, pure, ◌>>=◌,
}
use dcfs_client.Capsule.{RecordType, inode, blockmap, datablock}
use dcfs_client.Cache.{BufDesc}
use dcfs_client.Mid.{Env, Mid}
use dcfs_client.Mid.Modify.{
  push_record, push_blocks, push_blockmap, push_inode, if_empty, last_name, sealed_key, new_isize,
}
use dcfs_client.Mid.Payload.{join_hashes, put_hashes, inode_payload}
use dcfs_client.Mid.Versions.{put_hashes-zero}
use dcfs_client.Mid.FirstVersion.{IsFirst, no_inode}
use dcfs_client.Mid.Kept.{IsLogged, WasKept, push_record-WasKept, WasKept-push_record}

if_empty-short : (a b : Bytes) (n : ℕ) → length a ≤ n → length b ≤ n → length (if_empty a b) ≤ n
if_empty-short [] b n k l = l
if_empty-short (x ∷ a) b n k l = k

-- Each block is kept, under the name beside its offset, behind a short name.
unfoldable pub AllKept :
    {S : Type 0} → Env S → (S → List Bytes) → Bytes → List BufDesc → List (ℕ × Bytes) → S → Type 0
AllKept env log dcname [] blocks s = blocks ≡ []
AllKept env log dcname (d ∷ ds) blocks s =
    (prev : Bytes) × (name : Bytes) × (rest : List (ℕ × Bytes)) × (blocks
      ≡ (d.file_offset, name) ∷ rest)
    × (length prev ≤ 32)
    × WasKept env log dcname datablock (prev ∷ []) d.buf name s
    × AllKept env log dcname ds rest s

module _ {S : Type 0} (env : Env S) (log : S → List Bytes) (ax : IsLogged env log) where
  -- Of `push_blocks`: the rest of the loop, and the list put together.
  abbrev more_blocks :
      Bytes → Bytes → BufDesc → List BufDesc → Bytes → Mid S → Outcome (List (ℕ × Bytes)) × Mid S
  more_blocks dcname newest d ds name =
      push_blocks env dcname newest ds name >>= (λ rest. pure ((d.file_offset, name) ∷ rest))

  WasKept-push_blocks :
      (dcname newest prev : Bytes) (ds : List BufDesc) (blocks : List (ℕ × Bytes)) (s t : Mid S)
      (type : RecordType) (hashes : List Bytes) (payload name : Bytes)
      → push_blocks env dcname newest ds prev s ≡ (ok blocks, t)
      → WasKept env log dcname type hashes payload name s.server
      → WasKept env log dcname type hashes payload name t.server
  unfolding push_blocks
  WasKept-push_blocks dcname newest prev [] blocks s t type hashes payload name e k =
      subst (WasKept env log dcname type hashes payload name)
        (ap (λ (z : Outcome (List (ℕ × Bytes)) × Mid S). z.1.server) e) k
  WasKept-push_blocks dcname newest prev (d ∷ ds) blocks s t type hashes payload name e k =
      let back = if_empty prev (if_empty newest dcname) ∷ [] in
      let x = push_record env dcname datablock back d.buf s in
      let (nm, p, q) = then-step x (more_blocks dcname newest d ds) e in
      let y = push_blocks env dcname newest ds nm x.1 in
      let (rest, p', q') = then-step y (λ rest. pure ((d.file_offset, nm) ∷ rest)) q in
      let there = WasKept-push_blocks dcname newest nm ds rest x.1 y.1 type hashes payload name p' (
        WasKept-push_record env log ax dcname type datablock hashes back payload d.buf name nm s x.1
          p k) in
      subst (WasKept env log dcname type hashes payload name)
        (ap (λ (z : Outcome (List (ℕ × Bytes)) × Mid S). z.1.server) q') there

  push_blocks-AllKept :
      (dcname newest prev : Bytes) (ds : List BufDesc) (blocks : List (ℕ × Bytes)) (s t : Mid S)
      → length dcname ≤ 32
      → length newest ≤ 32
      → length prev ≤ 32
      → push_blocks env dcname newest ds prev s ≡ (ok blocks, t)
      → AllKept env log dcname ds blocks t.server
  unfolding push_blocks AllKept
  push_blocks-AllKept dcname newest prev [] blocks s t kd kn kp e =
      let l : ok [] ≡ ok blocks = ap (λ (z : Outcome (List (ℕ × Bytes)) × Mid S). z.0) e in
      sym (ok-injective l)
  push_blocks-AllKept dcname newest prev (d ∷ ds) blocks s t kd kn kp e =
      let p0 = if_empty prev (if_empty newest dcname) in
      let x = push_record env dcname datablock (p0 ∷ []) d.buf s in
      let (nm, p, q) = then-step x (more_blocks dcname newest d ds) e in
      let y = push_blocks env dcname newest ds nm x.1 in
      let (rest, p', q') = then-step y (λ rest. pure ((d.file_offset, nm) ∷ rest)) q in
      let l : ok ((d.file_offset, nm) ∷ rest) ≡ ok blocks =
        ap (λ (z : Outcome (List (ℕ × Bytes)) × Mid S). z.0) q' in
      let server = ap (λ (z : Outcome (List (ℕ × Bytes)) × Mid S). z.1.server) q' in
      let kept = push_record-WasKept env log ax dcname datablock (p0 ∷ []) d.buf nm s x.1 p in
      let size : length nm ≤ 32 = omega (arith, ax.digest.sizes _ nm kept.called) in
      let here =
        WasKept-push_blocks dcname newest nm ds rest x.1 y.1 datablock (p0 ∷ []) d.buf nm p' kept in
      (
        p0,
        nm,
        rest,
        sym (ok-injective l),
        if_empty-short prev (if_empty newest dcname) 32 kp (if_empty-short newest dcname 32 kn kd),
        subst (WasKept env log dcname datablock (p0 ∷ []) d.buf nm) server here,
        subst (AllKept env log dcname ds rest) server
            (push_blocks-AllKept dcname newest nm ds rest x.1 y.1 kd kn size p'),
      )

  AllKept-push_record :
      (dcname : Bytes) (ds : List BufDesc) (blocks : List (ℕ × Bytes)) (type : RecordType)
      (hashes : List Bytes) (payload name : Bytes) (s t : Mid S)
      → push_record env dcname type hashes payload s ≡ (ok name, t)
      → AllKept env log dcname ds blocks s.server
      → AllKept env log dcname ds blocks t.server
  unfolding AllKept
  AllKept-push_record dcname [] blocks type hashes payload name s t e k = k
  AllKept-push_record dcname (d ∷ ds) blocks type hashes payload name s t e
        (prev, nm, rest, is, small, here, k) =
      (
        prev,
        nm,
        rest,
        is,
        small,
        WasKept-push_record env log ax dcname datablock type (prev ∷ []) hashes d.buf payload nm
            name s t e here,
        AllKept-push_record dcname ds rest type hashes payload name s t e k,
      )

  last_name-short :
      (dcname : Bytes) (ds : List BufDesc) (blocks : List (ℕ × Bytes)) (s : S) (newest : Bytes)
      → AllKept env log dcname ds blocks s
      → last_name blocks ≡ ok newest
      → length newest ≤ 32
  unfolding AllKept last_name
  last_name-short dcname [] blocks s newest is e =
      let k : fault ≡ ok newest = ap last_name (sym is) ∙ e in cc
  last_name-short dcname (d ∷ []) blocks s newest (prev, nm, rest, is, small, here, end) e =
      let k : ok nm ≡ ok newest = ap last_name (sym (is ∙ ap (◌∷◌ (d.file_offset, nm)) end)) ∙ e in
      omega (arith, ap length (ok-injective k), ax.digest.sizes _ nm here.called)
  last_name-short dcname (d ∷ d' ∷ ds) blocks s newest (prev, nm, rest, is, small, here, k) e =
      let (_, _, _, is', _, _, _) = k in
      last_name-short dcname (d' ∷ ds) rest s newest k
        (ap last_name is' ∙ ap last_name (sym (is ∙ ap (◌∷◌ (d.file_offset, nm)) is')) ∙ e)

  -- What the server keeps of a first version: its blocks, and the block map with their names.
  pub IsFirst-AllKept :
      (dcname aes_key : Bytes) (descs : List BufDesc) (t : Mid S)
      (f : IsFirst env dcname aes_key descs t)
      → length dcname ≤ 32
      → AllKept env log dcname descs f.blocks t.server
        × (newest : Bytes) × (length newest ≤ 32)
        × WasKept env log dcname blockmap
            (dcname ∷ newest ∷ [])
            (join_hashes (map (λ b. b.1) f.blocks))
            f.bm_name
            t.server
  unfolding push_blockmap push_inode
  IsFirst-AllKept dcname aes_key descs t f short =
      let blocks = f.blocks in
      let payload = join_hashes (put_hashes 0 [] blocks) in
      let (newest, named, q) =
        then-step {S = Mid S} (last_name blocks, f.after_blocks)
          (λ newest. push_record env dcname blockmap (dcname ∷ newest ∷ []) payload) f.mapped in
      let seal = sealed_key env (no_inode aes_key).key in
      let load = λ (key : Bytes). inode_payload (new_isize 0 (length descs)) key in
      let back = dcname ∷ f.bm_name ∷ [] in
      let (key, _, r) =
        then-step {S = Mid S} (seal, f.after_map)
          (λ key. push_record env dcname inode back (load key)) f.placed in
      let first =
        push_blocks-AllKept dcname [] [] descs blocks f.start f.after_blocks short (omega arith)
          (omega arith) f.pushed in
      let second =
        AllKept-push_record dcname descs blocks blockmap (dcname ∷ newest ∷ []) payload f.bm_name
          f.after_blocks f.after_map q first in
      let third =
        AllKept-push_record dcname descs blocks inode back (load key) f.name f.after_map
          f.after_inode r second in
      let bm =
        push_record-WasKept env log ax dcname blockmap (dcname ∷ newest ∷ []) payload f.bm_name
          f.after_blocks f.after_map q in
      let bm' =
        WasKept-push_record env log ax dcname blockmap inode (dcname ∷ newest ∷ []) back payload
          (load key) f.bm_name f.name f.after_map f.after_inode r bm in
      (
        subst (AllKept env log dcname descs blocks) f.last third,
        newest,
        last_name-short dcname descs blocks f.after_blocks.server newest first
            (ap (λ (z : Outcome Bytes × Mid S). z.0) named),
        subst
            (λ (p : Bytes).
              WasKept env log dcname blockmap (dcname ∷ newest ∷ []) p f.bm_name t.server)
            (ap join_hashes (put_hashes-zero [] blocks))
            (subst (WasKept env log dcname blockmap (dcname ∷ newest ∷ []) payload f.bm_name) f.last
              bm'),
      )
