-- ===== src/Cache/Flush.antt =====
-- fs/inode.cpp, `RecordCache::FlushCache`: the dirty blocks are encrypted and handed to the backend
-- in one call, and the cache is dropped if that succeeds.
pub mod Descs
pub mod Places
use dcfs_client.Base.{
  ℕ, zero, suc, ◌+◌, ◌*◌, ◌^◌, ◌%◌, ◌<◌, ◌≡◌, ◌≢◌, ◌⊎◌, refl, ap, ap₂, Bool, true, false, Option,
  none, some, List, [], ◌∷◌, map, Bytes, Memory, bytes_at, Outcome, ok, err, fault, err_crypto, Err,
  Exec, arith, ltb, Bool-cases, inl, inr, if◌then◌else◌,
}
use dcfs_client.Crypto.{OpenSsl, Ciphered, encrypt_symmetric, decrypt_symmetric}
use dcfs_client.Crypto.Laws.{IsCipher, decrypt-encrypt}
use dcfs_client.Cache.{Host, Cache, BufDesc, deref}

-- The backend's `WriteRecord`: the file, the blocks, the inode record that the client saw, the key.
abbrev pub Writer : Type 0 → Type 0
Writer B = Bytes → List BufDesc → Bytes → Bytes → Exec B (Unit {0})

-- `delete[]`, NULL, and both flags cleared, for every entry of the vectors.
unfoldable pub drop_caches : Cache → Cache
drop_caches c = record c {
  cached = λ i. if ltb i c.count then false else c.cached i;
  dirty = λ i. if ltb i c.count then false else c.dirty i;
  blocks = λ i. if ltb i c.count then none else c.blocks i;
}

ok-or : (r : Outcome (Unit {0})) → (r ≡ ok tt) ⊎ (r ≢ ok tt)
ok-or (ok tt) = inl refl
ok-or (err e) = inr (λ p. cc)
ok-or fault = inr (λ p. cc)

module _ (h : Host) (ssl : OpenSsl) where
  sealed : ℕ → Ciphered → Outcome BufDesc
  sealed idx r =
      if r.success
      then ok (record { buf = r.out; file_offset = idx * h.block_size })
      else err err_crypto

  -- One dirty block: `encrypt_symmetric` of `block_size` bytes, with `outlen = 0`. The number of bytes
  -- becomes an `int` of 32 bits, and a negative one is no length.
  unfoldable pub seal_block : ℕ → Outcome Memory → Outcome BufDesc
  unfolding sealed
  seal_block idx (ok m) =
      let inlen = h.block_size % 2 ^ 32 in
      if ltb inlen (2 ^ 31)
      then sealed idx (encrypt_symmetric ssl h.aes_key none (bytes_at m 0 inlen) 0)
      else fault
  seal_block idx (err e) = err e
  seal_block idx fault = fault

  pub push_desc : Outcome BufDesc → Outcome (List BufDesc) → Outcome (List BufDesc)
  push_desc (ok d) (ok ds) = ok (d ∷ ds)
  push_desc (ok d) (err e) = err e
  push_desc (ok d) fault = fault
  push_desc (err e) rest = err e
  push_desc fault rest = fault

  -- The first loop, from block `idx` on: rounds left. The first failure ends it.
  unfoldable pub dirty_descs : Cache → ℕ → ℕ → Outcome (List BufDesc)
  unfolding seal_block push_desc deref
  dirty_descs c zero idx = ok []
  dirty_descs c (suc rounds) idx =
      let rest = dirty_descs c rounds (idx + 1) in
      if c.dirty idx then push_desc (seal_block idx (deref idx c).0) rest else rest

  module _ {B : Type 0} (writer : Writer B) where
    flushed : Outcome (Unit {0}) × B → Cache → Outcome (Unit {0}) × Cache × B
    flushed (ok u, b) c = (ok tt, drop_caches c, b)
    flushed (err e, b) c = (err e, c, b)
    flushed (fault, b) c = (fault, c, b)

    submit : Outcome (List BufDesc) → Cache → B → Outcome (Unit {0}) × Cache × B
    unfolding flushed
    submit (ok descs) c b = flushed (writer h.hashname descs h.ino_recordname h.aes_key b) c
    submit (err e) c b = (err e, c, b)
    submit fault c b = (fault, c, b)

    unfoldable pub flush_cache : Cache → B → Outcome (Unit {0}) × Cache × B
    unfolding submit
    flush_cache c b = submit (dirty_descs c c.count 0) c b

    flushed-ok :
        (r : Outcome (Unit {0}) × B) (c c' : Cache) (b : B)
        → flushed r c ≡ (ok tt, c', b)
        → r ≡ (ok tt, b)
    unfolding flushed
    flushed-ok (ok u, v) c c' b e = ap (λ (z : Outcome (Unit {0}) × Cache × B). (ok tt, z.2)) e
    flushed-ok (err x, v) c c' b e =
        let no : err x ≡ ok tt = ap (λ (z : Outcome (Unit {0}) × Cache × B). z.0) e in cc
    flushed-ok (fault, v) c c' b e =
        let no : fault ≡ ok tt = ap (λ (z : Outcome (Unit {0}) × Cache × B). z.0) e in cc

    submit-ok :
        (r : Outcome (List BufDesc)) (c c' : Cache) (b b' : B)
        → submit r c b ≡ (ok tt, c', b')
        → (descs : List BufDesc) × (r ≡ ok descs)
          × (writer h.hashname descs h.ino_recordname h.aes_key b ≡ (ok tt, b'))
    unfolding submit
    submit-ok (ok descs) c c' b b' e = (descs, refl, flushed-ok _ c c' b' e)
    submit-ok (err x) c c' b b' e =
        let no : err x ≡ ok tt = ap (λ (z : Outcome (Unit {0}) × Cache × B). z.0) e in cc
    submit-ok fault c c' b b' e =
        let no : fault ≡ ok tt = ap (λ (z : Outcome (Unit {0}) × Cache × B). z.0) e in cc

    -- A flush went through: the dirty blocks were sealed, and the backend took them.
    pub flush_cache-ok :
        (c c' : Cache) (b b' : B)
        → flush_cache c b ≡ (ok tt, c', b')
        → (descs : List BufDesc) × (dirty_descs c c.count 0 ≡ ok descs)
          × (writer h.hashname descs h.ino_recordname h.aes_key b ≡ (ok tt, b'))
    unfolding flush_cache
    flush_cache-ok c c' b b' e = submit-ok (dirty_descs c c.count 0) c c' b b' e

    flush_keeps : (c : Cache) (b : B) → (flush_cache c b).0 ≢ ok tt → (flush_cache c b).1 ≡ c
    unfolding flush_cache
    flush_keeps c b p = ground arith

    flush_drops :
        (c : Cache) (b : B)
        → (flush_cache c b).0 ≡ ok tt
        → ((flush_cache c b).1.count ≡ c.count)
          × ((i : ℕ) → i < c.count → (flush_cache c b).1.cached i ≡ false)
          × ((i : ℕ) → i < c.count → (flush_cache c b).1.dirty i ≡ false)
    unfolding flush_cache drop_caches
    flush_drops c b p = (ground arith, (λ i l. ground arith), λ i l. ground arith)

    -- A flush of any cache ends in one of two ways: it returned NO_ERR, the cache has as many
    -- entries as before, and none of them is cached or dirty; or it did not, and the cache is what
    -- it was, every block and every dirty flag included.
    pub flush_all_or_nothing :
        (c : Cache) (b : B)
        → ((flush_cache c b).0 ≡ ok tt)
            × ((flush_cache c b).1.count ≡ c.count)
            × ((i : ℕ) → i < c.count → (flush_cache c b).1.cached i ≡ false)
            × ((i : ℕ) → i < c.count → (flush_cache c b).1.dirty i ≡ false)
          ⊎ ((flush_cache c b).0 ≢ ok tt) × ((flush_cache c b).1 ≡ c)
    flush_all_or_nothing c b = elim (ok-or (flush_cache c b).0) [
      | inl e ↦ let (n, k, d) = flush_drops c b e in inl (e, n, k, d)
      | inr n ↦ inr (n, flush_keeps c b n)
    ]
