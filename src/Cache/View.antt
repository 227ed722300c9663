-- ===== src/Cache/View.antt =====
-- What a cache stands for: the content of the file, whether a block is cached or on the backend.
use dcfs_client.Base.{
  ℕ, ◌/◌, ◌%◌, ◌≤◌, ◌<◌, ◌≡◌, ap, Bool, true, false, Option, none, some, Bytes, length, Memory,
  Outcome, ok, err, fault, if◌then◌else◌,
}
use dcfs_client.Crypto.{OpenSsl}
use dcfs_client.Cache.{Host, Cache, Reader, bm_check, backed, fill_bmcache}

-- The buffer of block `i`, or zeros where there is none.
abbrev pub block_of : Cache → ℕ → Memory
block_of c i = elim (c.blocks i) [ none ↦ λ _. 0 | some m ↦ m ]

-- A cached block has a buffer, inside the vectors.
abbrev pub IsValid : Cache → Type 0
IsValid c = (i : ℕ) → c.cached i ≡ true → (i < c.count) × (c.blocks i ≡ some (block_of c i))

-- Every record can be read, and fits the room that it is given.
abbrev pub IsServing : Reader → Type 0
IsServing reader =
    (dcname recordname : Bytes) (room : ℕ)
    → (payload : Bytes) × (reader dcname recordname room ≡ ok payload) × (length payload ≤ room)

module _ (h : Host) (ssl : OpenSsl) (reader : Reader) (junk : Memory) where
  abbrev pub on_backend : Outcome Memory → Memory
  on_backend (ok m) = m
  on_backend (err e) = λ _. 0
  on_backend fault = λ _. 0

  -- Block `i` as the block map `bm` and the backend give it.
  abbrev pub stored : Option Memory → ℕ → Memory
  stored bm i = on_backend (backed h ssl reader junk (bm_check h ssl reader junk bm i))

  abbrev pub view : Cache → ℕ → Memory
  view c i = if c.cached i then block_of c i else stored c.bm i

  pub view-cached : (c : Cache) (i o : ℕ) → c.cached i ≡ true → view c i o ≡ block_of c i o
  view-cached c i o e = ap (λ (b : Bool). (if b then block_of c i else stored c.bm i) o) e

  pub view-stored : (c : Cache) (i o : ℕ) → c.cached i ≡ false → view c i o ≡ stored c.bm i o
  view-stored c i o e = ap (λ (b : Bool). (if b then block_of c i else stored c.bm i) o) e

  -- Every block that the block map names can be loaded.
  abbrev pub AllLoad : Option Memory → Type 0
  AllLoad bm =
      (i : ℕ) → (m : Memory) × (backed h ssl reader junk (bm_check h ssl reader junk bm i) ≡ ok m)

  -- The backend has what the cache needs: the block map is loaded, and the blocks that it names.
  abbrev pub IsServed : Cache → Type 0
  IsServed c =
      ((fill_bmcache h ssl reader junk c).0 ≡ ok tt)
      × AllLoad (fill_bmcache h ssl reader junk c).1.bm

  -- The byte at position `p` of the file, once the block map is loaded.
  abbrev pub content : Cache → ℕ → ℕ
  content c p = view (fill_bmcache h ssl reader junk c).1 (p / h.block_size) (p % h.block_size)
