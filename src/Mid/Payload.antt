-- ===== src/Mid/Payload.antt =====
-- fs/backend_sim.cpp: the payloads of inode and block map records, written and read.
pub mod RoundTrip
use dcfs_client.Base.{
  ℕ, zero, suc, ◌+◌, ◌-◌, ◌*◌, ◌/◌, ◌%◌, ◌^◌, ◌≤◌, ◌<◌, ◌≡◌, refl, ap, ap₂, ◌∙◌, Bool, true, false,
  List, [], ◌∷◌, ◌++◌, Bytes, length, set, length-append, get_or, Memory, of_bytes, bytes_at, ltb,
  arith, if◌then◌else◌,
}
use dcfs_client.Cache.{hashlen}

-- `memcpy` of a `uint64_t` to a buffer, on a little-endian machine: `k` bytes of it.
unfoldable pub encode_word : ℕ → ℕ → Bytes
encode_word zero n = []
encode_word (suc k) n = n % 256 ∷ encode_word k (n / 256)

-- The same back, from the memory at the pointer.
unfoldable pub decode_word : ℕ → Memory → ℕ → ℕ
decode_word zero m i = 0
decode_word (suc k) m i = m i + 256 * decode_word k m (i + 1)

-- DEFAULT_BLOCK_SIZE_IN_KB * 1024
abbrev pub default_block_size : ℕ
default_block_size = 16 * 1024

-- The loop that reads the payload of a block map record, 32 bytes a time. Each round advances
-- `offset`, so the payload's length is fuel enough; it is never less than the rounds needed.
unfoldable pub split_hashes : ℕ → Bytes → ℕ → List Bytes
split_hashes zero payload offset = []
split_hashes (suc fuel) payload offset =
    let rest = split_hashes fuel payload (offset + hashlen) in
    if ltb offset (length payload) then bytes_at (of_bytes payload) offset hashlen ∷ rest else []

-- The loop that writes it: 32 bytes of each hash.
unfoldable pub join_hashes : List Bytes → Bytes
join_hashes [] = []
join_hashes (x ∷ xs) = bytes_at (of_bytes x) 0 hashlen ++ join_hashes xs

-- The new blocks put into the block map: over the block at their place if it is below `isize`, and
-- at the end otherwise.
unfoldable pub put_hashes : ℕ → List Bytes → List (ℕ × Bytes) → List Bytes
put_hashes isize hashes [] = hashes
put_hashes isize hashes ((offset, name) ∷ blocks) =
    put_hashes isize
      (if ltb offset isize
        then set hashes (offset / default_block_size) name
        else hashes ++ name ∷ [])
      blocks

-- `isize` and the encrypted key, in INODE_PAYLOAD_SIZE = 8 + 16 + 16 bytes.
unfoldable pub inode_payload : ℕ → Bytes → Bytes
inode_payload isize encrypted_key = encode_word 8 isize ++ bytes_at (of_bytes encrypted_key) 0 32
