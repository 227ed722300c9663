-- ===== src/Examples/Files.antt =====
-- The theorems on a file's cache, at the file of ten bytes in blocks of four.
use dcfs_client.Base.{
  Outcome, ℕ, ◌+◌, ◌≤◌, ◌<◌, ◌≡◌, ◌≢◌, ◌⊎◌, refl, true, false, none, some, List, [], ◌∷◌, length,
  replicate, of_bytes, Memory, bytes_at, arith, ok, err, err_crypto, map,
}
use dcfs_client.Crypto.{encrypt_symmetric, decrypt_symmetric}
use dcfs_client.Crypto.Laws.{decrypt-encrypt_all}
use dcfs_client.Cache
use dcfs_client.Cache.{deref, Host, Cache, Reader, BufDesc, hashlen, bm_check, fill_bmcache}
use dcfs_client.Cache.View.{IsServed, IsValid, content}
use dcfs_client.Cache.ReadBack.{read-content, read_spill}
use dcfs_client.Cache.Writing.{write-content, write_spill}
use dcfs_client.Cache.BlockMap.{bm_check_first_byte, failed_block_map_sticks}
use dcfs_client.Cache.Flush.{seal_block, Writer, flush_cache, flush_all_or_nothing, dirty_descs}
use dcfs_client.Cache.Flush.Descs.{flush_cache-opened, opened, dirty_blocks}
use dcfs_client.Inode
use dcfs_client.Inode.{Inode}
use dcfs_client.Inode.RoundTrip.{bytes, write_lem, read-write}
use dcfs_client.Cache.Load.{IsServing-IsServed}
use dcfs_client.Examples.Toy.{
  toy_ssl, toy_ssl-IsCipher, toy_reader, toy_reader-IsServing, toy_host, toy_cache,
  toy_cache-IsValid, toy_dirty-cached, toy_inode, blank, counting,
}

toy_cache-IsServed : IsServed toy_host toy_ssl toy_reader blank toy_cache
toy_cache-IsServed =
    IsServing-IsServed toy_host toy_ssl toy_reader blank toy_reader-IsServing toy_cache

-- Bytes 2 to 6 are in two blocks.
read-content_example :
    (end : Memory) × (Cache.read toy_host toy_ssl toy_reader blank counting 2 5 toy_cache
      ≡ (ok end, (Cache.fill_dcache toy_host toy_ssl toy_reader blank 2 5 toy_cache).1))
    × ((i : ℕ) → i < 5 → end i ≡ content toy_host toy_ssl toy_reader blank toy_cache (2 + i))
    × ((i : ℕ) → 5 < i → end i ≡ counting i)
    × ((p : ℕ)
        → content toy_host toy_ssl toy_reader blank
            (Cache.fill_dcache toy_host toy_ssl toy_reader blank 2 5 toy_cache).1
            p
          ≡ content toy_host toy_ssl toy_reader blank toy_cache p)
    × IsValid (Cache.fill_dcache toy_host toy_ssl toy_reader blank 2 5 toy_cache).1
read-content_example =
    read-content toy_host toy_ssl toy_reader blank toy_cache 2 5 counting toy_cache-IsValid
      toy_cache-IsServed (omega arith) (omega arith) (omega arith)

read_spill_example :
    (end : Memory) × (Cache.read toy_host toy_ssl toy_reader blank counting 2 5 toy_cache
      ≡ (ok end, (Cache.fill_dcache toy_host toy_ssl toy_reader blank 2 5 toy_cache).1))
    × (end 5 ≡ content toy_host toy_ssl toy_reader blank toy_cache 7)
read_spill_example =
    read_spill toy_host toy_ssl toy_reader blank toy_cache 2 5 counting toy_cache-IsValid
      toy_cache-IsServed (omega arith) (omega arith) (omega arith)

write-content_example :
    (d : Cache) × (Cache.write toy_host toy_ssl toy_reader blank counting 2 5 toy_cache
      ≡ (ok tt, d))
    × ((i : ℕ) → i < 5 → content toy_host toy_ssl toy_reader blank d (2 + i) ≡ counting i)
    × ((p : ℕ)
        → p < 2
        → content toy_host toy_ssl toy_reader blank d p
          ≡ content toy_host toy_ssl toy_reader blank toy_cache p)
    × ((p : ℕ)
        → 7 < p
        → content toy_host toy_ssl toy_reader blank d p
          ≡ content toy_host toy_ssl toy_reader blank toy_cache p)
    × ((k : ℕ) → 0 ≤ k → k ≤ 1 → d.dirty k ≡ true)
    × IsValid d
    × IsServed toy_host toy_ssl toy_reader blank d
write-content_example =
    write-content toy_host toy_ssl toy_reader blank toy_cache 2 5 counting toy_cache-IsValid
      toy_cache-IsServed (omega arith) (omega arith) (omega arith)

write_spill_example :
    (d : Cache) × (Cache.write toy_host toy_ssl toy_reader blank counting 2 5 toy_cache
      ≡ (ok tt, d))
    × (content toy_host toy_ssl toy_reader blank d 7 ≡ counting 5)
write_spill_example =
    write_spill toy_host toy_ssl toy_reader blank toy_cache 2 5 counting toy_cache-IsValid
      toy_cache-IsServed (omega arith) (omega arith) (omega arith)

write_lem_example :
    (out : Inode) × (Inode.write toy_ssl toy_reader blank counting 8 5 toy_inode ≡ (ok 5, out))
    × (out.size ≡ 13)
    × ((i : ℕ) → i < 5 → bytes toy_ssl toy_reader blank out (8 + i) ≡ counting i)
    × ((p : ℕ)
        → p < 8
        → bytes toy_ssl toy_reader blank out p ≡ bytes toy_ssl toy_reader blank toy_inode p)
    × ((p : ℕ)
        → 13 < p
        → bytes toy_ssl toy_reader blank out p ≡ bytes toy_ssl toy_reader blank toy_inode p)
    × IsValid out.cache
    × IsServed out.host toy_ssl toy_reader blank out.cache
    × (out.block_size ≡ 4)
write_lem_example =
    write_lem toy_ssl toy_reader blank toy_inode toy_cache-IsServed toy_cache-IsValid (omega arith)
      counting 8 5 (omega arith) (omega arith) (omega arith)

read-write_example :
    let (r, out) = Inode.write toy_ssl toy_reader blank counting 8 5 toy_inode in
    (r ≡ ok 5)
    × (end : Memory) × (later : Inode) × (Inode.read toy_ssl toy_reader blank blank 8 5 out
        ≡ (ok (end, some 5), later))
    × ((i : ℕ) → i < 5 → end i ≡ counting i)
read-write_example =
    read-write toy_ssl toy_reader blank toy_inode toy_cache-IsServed toy_cache-IsValid (omega arith)
      counting 8 5 (omega arith) (omega arith) (omega arith) blank

-- A hash that starts with byte 0 is not found.
bm_check_first_byte_example :
    bm_check toy_host toy_ssl toy_reader blank (some (of_bytes (0 ∷ replicate 31 1))) 0 ≡ none
unfolding of_bytes
bm_check_first_byte_example =
    bm_check_first_byte toy_host toy_ssl toy_reader blank (of_bytes (0 ∷ replicate 31 1)) 0

abbrev failing_reader : Reader
failing_reader dcname recordname room = err err_crypto

abbrev mapped_host : Host
mapped_host = record toy_host { bm_recordname = 1 ∷ [] }

failing : (fill_bmcache mapped_host toy_ssl failing_reader blank toy_cache).0 ≡ err err_crypto
unfolding fill_bmcache
failing = refl

failed_block_map_sticks_example :
    let d = (fill_bmcache mapped_host toy_ssl failing_reader blank toy_cache).1 in
    (fill_bmcache mapped_host toy_ssl failing_reader blank d ≡ (ok tt, d))
    × ((idx : ℕ) → bm_check mapped_host toy_ssl failing_reader blank d.bm idx ≡ none)
failed_block_map_sticks_example =
    failed_block_map_sticks mapped_host toy_ssl failing_reader blank toy_cache err_crypto failing

abbrev counting_writer : Writer ℕ
counting_writer dcname descs inode_recordname aes_key b = (ok tt, b + length descs)

flush_all_or_nothing_example :
    let (r, c, b) = flush_cache toy_host toy_ssl counting_writer toy_cache 0 in
    (r ≡ ok tt)
      × (c.count ≡ 3)
      × ((i : ℕ) → i < 3 → c.cached i ≡ false)
      × ((i : ℕ) → i < 3 → c.dirty i ≡ false)
    ⊎ (r ≢ ok tt) × (c ≡ toy_cache)
flush_all_or_nothing_example = flush_all_or_nothing toy_host toy_ssl counting_writer toy_cache 0

abbrev after_flush : Outcome (Unit {0}) × Cache × ℕ
after_flush = flush_cache toy_host toy_ssl counting_writer toy_cache 0

flushing : after_flush ≡ (ok tt, after_flush.1, after_flush.2)
unfolding flush_cache dirty_descs encrypt_symmetric bytes_at seal_block deref
flushing = refl

flush_cache-opened_example :
    (descs : List BufDesc) × (counting_writer (7 ∷ []) descs [] (replicate 16 9) 0
      ≡ (ok tt, after_flush.2))
    × (map (opened toy_host toy_ssl) descs ≡ dirty_blocks toy_host toy_ssl toy_cache 3 0)
flush_cache-opened_example =
    flush_cache-opened toy_host toy_ssl counting_writer toy_ssl-IsCipher (omega arith) toy_cache
      after_flush.1 0 after_flush.2 toy_cache-IsValid toy_dirty-cached flushing

encrypting : (encrypt_symmetric toy_ssl (9 ∷ []) none (1 ∷ 2 ∷ []) 0).success ≡ true
unfolding encrypt_symmetric
encrypting = refl

decrypt-encrypt_all_example :
    decrypt_symmetric toy_ssl
      (9 ∷ [])
      none
      (encrypt_symmetric toy_ssl (9 ∷ []) none (1 ∷ 2 ∷ []) 0).out
      5
    ≡ record { success = true; out = 1 ∷ 2 ∷ []; outlen = 2 }
decrypt-encrypt_all_example =
    decrypt-encrypt_all toy_ssl-IsCipher (9 ∷ []) none (1 ∷ 2 ∷ []) 0 5 encrypting
