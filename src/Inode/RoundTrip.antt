-- ===== src/Inode/RoundTrip.antt =====
-- Reading back what was written to a file, and the size of its cache.
use dcfs_client.Base.{
  ℕ, ◌+◌, ◌^◌, ◌≤◌, ◌<◌, ◌≡◌, refl, sym, ap, subst, ◌∙◌, false, some, Memory, Outcome, ok, arith,
  add64, ltb, leb, Bool-cases, inl, inr, if◌then◌else◌,
}
use native.Mathlib.Nat.{mod-eq_of_lt}
use dcfs_client.Crypto.{OpenSsl}
use dcfs_client.Cache
use dcfs_client.Cache.{Host, Cache, Reader, backed, bm_check, fill_bmcache, new_cache}
use dcfs_client.Cache.View.{IsValid, IsServed, content}
use dcfs_client.Cache.ReadBack.{read-content}
use dcfs_client.Cache.Writing.{write-content}
use dcfs_client.Inode.{Inode, read, write}

module _ (ssl : OpenSsl) (reader : Reader) (junk : Memory) where
  -- The bytes of the file that an inode stands for.
  abbrev pub bytes : Inode → ℕ → ℕ
  bytes ino = content ino.host ssl reader junk ino.cache

  -- A read within the file returns its bytes and their number.
  pub read_lem :
      (ino : Inode)
      → IsServed ino.host ssl reader junk ino.cache
      → IsValid ino.cache
      → 0 < ino.block_size
      → (mem : Memory) (offset size : ℕ) → 0 < size
      → offset + size ≤ ino.size
      → offset + size < 2 ^ 64
      → (end : Memory) × (later : Inode) × (read ssl reader junk mem offset size ino
          ≡ (ok (end, some size), later))
        × ((i : ℕ) → i < size → end i ≡ bytes ino (offset + i))
  unfolding read
  read_lem ino served valid pos mem offset size some_bytes inside fits =
      let (end, runs, got, _, _, _) =
        read-content ino.host ssl reader junk ino.cache offset size mem valid served pos some_bytes
          fits in
      let a : add64 offset size ≡ offset + size = mod-eq_of_lt fits in
      let t : ltb ino.size (offset + size) ≡ false = ground arith in
      let u : leb ino.size offset ≡ false = ground arith in
      (
        end,
        record ino { cache = (Cache.fill_dcache ino.host ssl reader junk offset size ino.cache).1 },
        rw (a, t, u, runs) refl,
        got,
      )

  module _ (ino : Inode) (served : IsServed ino.host ssl reader junk ino.cache)
      (valid : IsValid ino.cache) (pos : 0 < ino.block_size) (buf : Memory) (offset size : ℕ)
      (some_bytes : 0 < size) (inside : offset ≤ ino.size) (fits : offset + size < 2 ^ 64) where
    -- On a backend that has what the cache needs (`IsServed`), with blocks of at least one byte, a valid
    -- cache and no wrap of `offset + size`, a write of at least one byte, `offset` being at most the file's size, returns `size` and extends the file to the
    -- end of the range if that is behind its end. The file then has the buffer's bytes in the range,
    -- and its old ones before it and behind position `offset + size`; the cache stays valid, and served.
    pub write_lem :
        (out : Inode) × (write ssl reader junk buf offset size ino ≡ (ok size, out))
        × (out.size ≡ (if ltb ino.size (offset + size) then offset + size else ino.size))
        × ((i : ℕ) → i < size → bytes out (offset + i) ≡ buf i)
        × ((p : ℕ) → p < offset → bytes out p ≡ bytes ino p)
        × ((p : ℕ) → offset + size < p → bytes out p ≡ bytes ino p)
        × IsValid out.cache
        × IsServed out.host ssl reader junk out.cache
        × (out.block_size ≡ ino.block_size)
    unfolding write backed bm_check fill_bmcache
    write_lem =
        let (d, runs, new, before, behind, _, w, has) =
          write-content ino.host ssl reader junk ino.cache offset size buf valid served pos
            some_bytes fits in
        let q : (if leb ino.size offset then ino.size else offset) ≡ offset = ground arith in
        let a : add64 offset size ≡ offset + size = mod-eq_of_lt fits in
        elim (Bool-cases (ltb ino.size (offset + size))) [
          | inl t ↦ (
            record ino { cache = d; host = record ino.host { size = offset + size } },
            rw (q, runs, a, t) refl,
            rw t refl,
            new,
            before,
            behind,
            w,
            has,
            refl,
          )
          | inr t ↦ (
            record ino { cache = d },
            rw (q, runs, a, t) refl,
            rw t refl,
            new,
            before,
            behind,
            w,
            has,
            refl,
          )
        ]

    -- What was written can be read back. On a backend that has what the cache needs (`IsServed`), with
    -- blocks of at least one byte, a valid cache and no wrap of `offset + size`, a write of at least one byte, `offset` being at most the file's size, returns
    -- `size`; and a read of the same range then returns the bytes written and reports `size` of them,
    -- in whatever memory it is put.
    pub read-write :
        (mem : Memory)
        → let (r, out) = write ssl reader junk buf offset size ino in
          (r ≡ ok size)
          × (end : Memory) × (later : Inode) × (read ssl reader junk mem offset size out
              ≡ (ok (end, some size), later))
          × ((i : ℕ) → i < size → end i ≡ buf i)
    read-write mem =
        let (out, runs, sz, new, _, _, w, has, b) = write_lem in
        let (end, later, reads, got) =
          read_lem out has w (subst (λ n. 0 < n) (sym b) pos) mem offset size some_bytes
            (ground (arith, sz)) fits in
        (
          ap (λ (x : Outcome ℕ × Inode). x.0) runs,
          end,
          later,
          ap (λ (x : Outcome ℕ × Inode). read ssl reader junk mem offset size x.1) runs ∙ reads,
          λ i l. got i l ∙ new i l,
        )
