-- ===== src/Cache/Flush/Descs.antt =====
-- What `FlushCache` hands to the backend, against a description of the dirty blocks.
use dcfs_client.Base.{
  none, ℕ, zero, suc, ◌+◌, ◌*◌, ◌^◌, ◌%◌, ◌<◌, ltb, ◌≡◌, refl, ap, ap₂, sym, true, List, [], ◌∷◌,
  map, Bytes, Memory, bytes_at, Outcome, ok, err, fault, ok-injective, arith, Bool-cases, inl, inr,
  if◌then◌else◌,
}
use native.Mathlib.Nat.{mod-eq_of_lt}
use dcfs_client.Crypto.{OpenSsl, encrypt_symmetric, decrypt_symmetric}
use dcfs_client.Crypto.Laws.{IsCipher, decrypt-encrypt}
use dcfs_client.Cache.{Host, Cache, BufDesc}
use dcfs_client.Cache.View.{IsValid, block_of}
use dcfs_client.Cache.CopyOut.{deref-cached}
use dcfs_client.Cache.Flush.{
  Writer, flush_cache, flush_cache-ok, seal_block, push_desc, dirty_descs,
}

module _ (h : Host) (ssl : OpenSsl) where
  -- The dirty blocks from `idx` on, in order: each position in the file with the block's bytes.
  unfoldable pub dirty_blocks : Cache → ℕ → ℕ → List (ℕ × Bytes)
  dirty_blocks c zero idx = []
  dirty_blocks c (suc rounds) idx =
      let rest = dirty_blocks c rounds (idx + 1) in
      if c.dirty idx
      then (idx * h.block_size, bytes_at (block_of c idx) 0 h.block_size) ∷ rest
      else rest

  -- What a reader with the key makes of a `buf_desc_t`.
  unfoldable pub opened : BufDesc → ℕ × Bytes
  opened d = (d.file_offset, (decrypt_symmetric ssl h.aes_key none d.buf 0).out)

  seal_block-opened :
      IsCipher ssl
      → h.block_size < 2 ^ 31
      → (idx : ℕ) (m : Memory) (d : BufDesc) → seal_block h ssl idx (ok m) ≡ ok d
      → opened d ≡ (idx * h.block_size, bytes_at m 0 h.block_size)
  unfolding seal_block opened
  seal_block-opened cipher small idx m d e =
      let same : h.block_size % 2 ^ 32 ≡ h.block_size = mod-eq_of_lt (omega arith) in
      let t : ltb h.block_size (2 ^ 31) ≡ true = ground arith in
      let e' = rw (same, t) at e in
      let plain = bytes_at m 0 h.block_size in
      elim (Bool-cases (encrypt_symmetric ssl h.aes_key none plain 0).success) [
        | inl t ↦ ground (arith, e', decrypt-encrypt cipher h.aes_key none plain 0 0 t)
        | inr f ↦ ground (arith, e')
      ]

  pub push_desc-ok :
      (r : Outcome BufDesc) (rest : Outcome (List BufDesc)) (descs : List BufDesc)
      → push_desc h ssl r rest ≡ ok descs
      → (d : BufDesc) × (ds : List BufDesc) × (r ≡ ok d) × (rest ≡ ok ds) × (descs ≡ d ∷ ds)
  unfolding push_desc
  push_desc-ok (ok d) (ok ds) descs e = (d, ds, refl, refl, ground arith)
  push_desc-ok (ok d) (err x) descs e = cc
  push_desc-ok (ok d) fault descs e = cc
  push_desc-ok (err x) rest descs e = cc
  push_desc-ok fault rest descs e = cc

  -- What the loop of `FlushCache` collects.
  pub dirty_descs-opened :
      IsCipher ssl
      → h.block_size < 2 ^ 31
      → (c : Cache) → IsValid c
      → ((i : ℕ) → c.dirty i ≡ true → c.cached i ≡ true)
      → (rounds idx : ℕ) (descs : List BufDesc) → dirty_descs h ssl c rounds idx ≡ ok descs
      → map opened descs ≡ dirty_blocks c rounds idx
  unfolding dirty_descs dirty_blocks
  dirty_descs-opened cipher small c v k zero idx descs e = ap (map opened) (sym (ok-injective e))
  dirty_descs-opened cipher small c v k (suc n) idx descs e = elim (Bool-cases (c.dirty idx)) [
    | inr clean ↦ rw clean (dirty_descs-opened cipher small c v k n (idx + 1) descs (rw clean at e))
    | inl dirty ↦
        let here = deref-cached c idx v (k idx dirty) in
        let (d, ds, seals, rest, is) = push_desc-ok _ _ descs (rw (dirty, here) at e) in
        rw (dirty, is)
          (ap₂ ◌∷◌ (seal_block-opened cipher small idx (block_of c idx) d seals)
            (dirty_descs-opened cipher small c v k n (idx + 1) ds rest))
  ]

  -- With a cipher that decrypts what it encrypted, blocks of fewer than 2^31 bytes, and a valid cache in
  -- which every dirty block is cached: when `FlushCache` returns NO_ERR, it handed the backend's
  -- `WriteRecord` the file, the name of its inode record, its key, and exactly the dirty blocks of the
  -- whole cache, in ascending order, each at its position in the file and decrypting to its bytes; and
  -- the backend is left as that call, which returned NO_ERR, left it.
  pub flush_cache-opened :
      {B : Type 0} (writer : Writer B)
      → IsCipher ssl
      → h.block_size < 2 ^ 31
      → (c c' : Cache) (b b' : B) → IsValid c
      → ((i : ℕ) → c.dirty i ≡ true → c.cached i ≡ true)
      → flush_cache h ssl writer c b ≡ (ok tt, c', b')
      → (descs : List BufDesc) × (writer h.hashname descs h.ino_recordname h.aes_key b
          ≡ (ok tt, b'))
        × (map opened descs ≡ dirty_blocks c c.count 0)
  flush_cache-opened writer cipher small c c' b b' v k e =
      let (descs, sealed, written) = flush_cache-ok h ssl writer c c' b b' e in
      (descs, written, dirty_descs-opened cipher small c v k c.count 0 descs sealed)
