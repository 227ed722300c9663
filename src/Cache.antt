-- ===== src/Cache.antt =====
-- fs/inode.hpp and fs/inode.cpp, class RecordCache: the write-back cache of one file's blocks.
-- The two vectors `dcache_stats_` and `dcache_blocks_` grow together; they are the first `count`
-- entries of `cached`, `dirty` and `blocks`, and an entry behind them holds what `push_back` puts
-- there. `blocks i` is the buffer behind the pointer, and `none` is NULL.
pub mod View
pub mod Fill
pub mod Load
pub mod CopyOut
pub mod ReadBack
pub mod CopyIn
pub mod WriteThrough
pub mod WriteBack
pub mod Writing
pub mod BlockMap
pub mod Flush
use dcfs_client.Base.{
  ℕ, zero, suc, ◌+◌, ◌-◌, ◌*◌, ◌/◌, ◌%◌, Bool, true, false, Option, none, some, Bytes, length,
  Memory, memcpy, replicate, clear, of_bytes, bytes_at, add64, strcmp_eq, ltb, leb, ◌==◌,
  if◌then◌else◌, Outcome, ok, err, fault, Exec, pure, ◌>>=◌, ◌>>◌, List,
}
use dcfs_client.Crypto.{OpenSsl, encrypt_symmetric, decrypt_symmetric}

-- The fields of `Inode` that its cache reads through `host_`.
pub record Host : Type 0 where
  pub hashname : Bytes
  pub ino_recordname : Bytes
  pub size : ℕ
  pub block_size : ℕ
  pub bm_cover : ℕ
  pub bm_recordname : Bytes
  pub aes_key : Bytes

pub record Cache : Type 0 where
  pub count : ℕ
  pub cached : ℕ → Bool
  pub dirty : ℕ → Bool
  pub blocks : ℕ → Option Memory
  pub bm : Option Memory

-- fs/backend.hpp, `buf_desc_t`; its `size` is the length of `buf`.
pub record BufDesc : Type 0 where
  pub buf : Bytes
  pub file_offset : ℕ

abbrev pub hashlen : ℕ
hashlen = 32

abbrev pub aes_pad_len : ℕ
aes_pad_len = 16

-- `init_inode` zeroes it.
abbrev pub zero_str : Bytes
zero_str = replicate hashlen 0

-- A vector's entry `i` assigned.
abbrev pub put_at {ℓ} : {A : Type ℓ} → (ℕ → A) → ℕ → A → ℕ → A
put_at f i v j = if i == j then v else f j

-- The constructor: `Size() / BlockSize() + 1` default entries, NULL blocks, no block map.
unfoldable pub new_cache : Host → Cache
new_cache h = record {
  count = h.size / h.block_size + 1;
  cached = λ _. false;
  dirty = λ _. false;
  blocks = λ _. none;
  bm = none;
}

-- One more entry at the end of both vectors.
unfoldable pub push_back : Cache → Cache
push_back c = record c {
  count = c.count + 1;
  cached = put_at c.cached c.count false;
  dirty = put_at c.dirty c.count false;
  blocks = put_at c.blocks c.count none;
}

-- `dcache_blocks_[i]` where it is dereferenced.
unfoldable pub deref : ℕ → Exec Cache Memory
deref i c =
    if ltb i c.count
    then (elim (c.blocks i) [ none ↦ (fault, c) | some m ↦ (ok m, c) ])
    else (fault, c)

-- `dcache_stats_[i].dirty = true`
unfoldable pub mark_dirty : ℕ → Exec Cache (Unit {0})
mark_dirty i c = (ok tt, record c { dirty = put_at c.dirty i true })

-- `memcpy(dcache_blocks_[i] + d, src + s, n)`
unfoldable pub patch : ℕ → ℕ → Memory → ℕ → ℕ → Exec Cache (Unit {0})
unfolding deref
patch i d src s n = do
  m ← deref i
  λ c. (ok tt, record c { blocks = put_at c.blocks i (some (memcpy m d src s n)) })

-- The backend's `ReadRecordData`: the file, the record, the room in `desc`, and the payload.
abbrev pub Reader : Type 0
Reader = Bytes → Bytes → ℕ → Outcome Bytes

-- The host, OpenSSL, the backend, and what `new char[]` holds before it is written.
module _ (h : Host) (ssl : OpenSsl) (reader : Reader) (junk : Memory) where
  -- `bm_` is set, zeroed and non-NULL, before the record is read, and stays so if that fails.
  keep_bm : Outcome Bytes → Exec Cache (Unit {0})
  keep_bm (ok payload) c = (
    ok tt,
    record c {
      bm =
          some (memcpy (clear junk (hashlen * h.bm_cover)) 0 (of_bytes payload) 0 (length payload));
    },
  )
  keep_bm (err e) c = (err e, record c { bm = some (clear junk (hashlen * h.bm_cover)) })
  keep_bm fault c = (fault, record c { bm = some (clear junk (hashlen * h.bm_cover)) })

  -- The two arguments of the source, an offset and a count of blocks, are not used there.
  unfoldable pub fill_bmcache : Exec Cache (Unit {0})
  unfolding keep_bm
  fill_bmcache c = elim c.bm [
    | some m ↦ (ok tt, c)
    | none ↦
        if ltb 0 (length h.bm_recordname)
        then keep_bm (reader h.hashname h.bm_recordname (hashlen * h.bm_cover)) c
        else (ok tt, c)
  ]

  named : Bytes → Option Bytes
  named ret = if strcmp_eq ret zero_str then none else some ret

  -- The record that holds block `idx`, if it is on the backend.
  unfoldable pub bm_check : Option Memory → ℕ → Option Bytes
  unfolding named
  bm_check none idx = none
  bm_check (some m) idx =
      if leb h.bm_cover idx then none else named (bytes_at m (idx * hashlen) hashlen)

  -- The result of `decrypt_symmetric` is not tested: what it wrote is in the block, whatever it
  -- returned. The assertion is `read_size <= desc.size`.
  decrypted : Outcome Bytes → Outcome Memory
  decrypted (ok payload) =
      let plain = (decrypt_symmetric ssl h.aes_key none payload 0).out in
      if leb (length payload) (h.block_size + aes_pad_len)
      then ok (memcpy junk 0 (of_bytes plain) 0 (length plain))
      else fault
  decrypted (err e) = err e
  decrypted fault = fault

  unfoldable pub backed : Option Bytes → Outcome Memory
  unfolding decrypted
  backed none = ok (clear junk h.block_size)
  backed (some recordname) = decrypted (reader h.hashname recordname (h.block_size + aes_pad_len))

  -- The new buffer is in `dcache_blocks_` before it is filled.
  settle : ℕ → Outcome Memory → Exec Cache (Unit {0})
  settle idx (ok m) c =
      (ok tt, record c { blocks = put_at c.blocks idx (some m); cached = put_at c.cached idx true })
  settle idx (err e) c = (err e, record c { blocks = put_at c.blocks idx (some junk) })
  settle idx fault c = (fault, record c { blocks = put_at c.blocks idx (some junk) })

  -- The second half of a round: the block is loaded unless it is cached.
  unfoldable pub load_block : ℕ → Exec Cache (Unit {0})
  unfolding settle
  load_block idx c = if c.cached idx then (ok tt, c) else settle idx (backed (bm_check c.bm idx)) c

  -- One round of the loop of `fillDcache`.
  unfoldable pub fill_block : ℕ → Exec Cache (Unit {0})
  fill_block idx c = load_block idx (if leb c.count idx then push_back c else c)

  unfoldable pub fill_blocks : ℕ → ℕ → Exec Cache (Unit {0})
  fill_blocks zero idx = pure tt
  fill_blocks (suc rounds) idx = do fill_block idx; fill_blocks rounds (idx + 1)

  unfoldable pub fill_dcache : ℕ → ℕ → Exec Cache (Unit {0})
  fill_dcache offset size c =
      let st = offset / h.block_size in
      let ed = add64 offset size / h.block_size in
      let from = if ltb c.count st then c.count else st in
      (do fill_bmcache; fill_blocks (ed + 1 - from) from) c

  -- The loop over the whole blocks of a long read: rounds left, `blk_idx`, `cur`.
  unfoldable pub copy_out_blocks : ℕ → ℕ → ℕ → Memory → Exec Cache Memory
  copy_out_blocks zero idx cur buf = pure buf
  copy_out_blocks (suc rounds) idx cur buf = do
    m ← deref idx
    copy_out_blocks rounds (idx + 1) (cur + h.block_size) (memcpy buf cur m 0 h.block_size)

  -- The copies of `Read`: `st_block`, `st_offset`, `ed_block`, `ed_offset`. The last copy is of
  -- `ed_offset + 1` bytes.
  unfoldable pub copy_range : ℕ → ℕ → ℕ → ℕ → ℕ → Memory → Exec Cache Memory
  copy_range st st_offset ed ed_offset size buf =
      let bs = h.block_size in
      if st == ed
      then (do m ← deref st; pure (memcpy buf 0 m st_offset size))
      else if st + 1 == ed
      then (do
        m ← deref st
        l ← deref ed
        pure (
            memcpy (memcpy buf 0 m st_offset (bs - st_offset)) (bs - st_offset) l 0
              (ed_offset + 1)))
      else do
        m ← deref st
        let first = memcpy buf 0 m st_offset (bs - st_offset)
        whole ← copy_out_blocks (ed - (st + 1)) (st + 1) (bs - st_offset) first
        l ← deref ed
        pure (memcpy whole (bs - st_offset + (ed - (st + 1)) * bs) l 0 (ed_offset + 1))

  unfoldable pub copy_out : ℕ → ℕ → Memory → Exec Cache Memory
  copy_out offset size =
      let end = add64 offset size in
      copy_range (offset / h.block_size) (offset % h.block_size) (end / h.block_size)
        (end % h.block_size) size

  -- `Read`: `buf` is the memory from the caller's pointer on, and the result what it then holds.
  unfoldable pub read : Memory → ℕ → ℕ → Exec Cache Memory
  read buf offset size c =
      if size == 0 then (fault, c) else (do fill_dcache offset size; copy_out offset size buf) c

  unfoldable pub copy_in_blocks : ℕ → ℕ → ℕ → Memory → Exec Cache (Unit {0})
  unfolding mark_dirty patch
  copy_in_blocks zero idx cur buf = pure tt
  copy_in_blocks (suc rounds) idx cur buf = do
    patch idx 0 buf cur h.block_size
    mark_dirty idx
    copy_in_blocks rounds (idx + 1) (cur + h.block_size) buf

  -- The copies of `Write`, in the order of the source.
  unfoldable pub patch_range : ℕ → ℕ → ℕ → ℕ → ℕ → Memory → Exec Cache (Unit {0})
  unfolding mark_dirty patch
  patch_range st st_offset ed ed_offset size buf =
      let bs = h.block_size in
      if st == ed
      then (do patch st st_offset buf 0 size; mark_dirty st)
      else if st + 1 == ed
      then (do
        patch st st_offset buf 0 (bs - st_offset)
        patch ed 0 buf (bs - st_offset) (ed_offset + 1)
        mark_dirty st
        mark_dirty ed)
      else do
        patch st st_offset buf 0 (bs - st_offset)
        mark_dirty st
        copy_in_blocks (ed - (st + 1)) (st + 1) (bs - st_offset) buf
        patch ed 0 buf (bs - st_offset + (ed - (st + 1)) * bs) (ed_offset + 1)
        mark_dirty ed

  unfoldable pub copy_in : ℕ → ℕ → Memory → Exec Cache (Unit {0})
  copy_in offset size =
      let end = add64 offset size in
      patch_range (offset / h.block_size) (offset % h.block_size) (end / h.block_size)
        (end % h.block_size) size

  -- The copies go on when `fillDcache` failed; its error is the result when they get through.
  copy_anyway : Outcome (Unit {0}) → (Cache → Outcome (Unit {0}) × Cache) → Exec Cache (Unit {0})
  copy_anyway (ok _) copy c = copy c
  copy_anyway (err e) copy c =
      let (r, c') = copy c in (elim r [ ok _ ↦ err e | err e' ↦ err e' | fault ↦ fault ], c')
  copy_anyway fault copy c = (fault, c)

  unfoldable pub write : Memory → ℕ → ℕ → Exec Cache (Unit {0})
  unfolding copy_anyway
  write buf offset size c =
      let (r, c') = fill_dcache offset size c in
      if size == 0 then (fault, c) else copy_anyway r (copy_in offset size buf) c'
