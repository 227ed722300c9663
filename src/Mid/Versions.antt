-- ===== src/Mid/Versions.antt =====
-- What a new version of a file is made of: its block map, its size and its key.
use dcfs_client.Base.{
  bytes_at, of_bytes, ℕ, ◌≡◌, sym, ◌∙◌, false, List, [], ◌∷◌, ◌++◌, map, Bytes, ok, arith, ltb,
}
use mathlib.Core.List.{append_assoc, append-nil}
use dcfs_client.Mid.{Env, Mid, get_pdu}
use dcfs_client.Mid.Payload.{put_hashes}
use dcfs_client.Mid.Modify.{
  InodeRecord, BlockMapRecord, current_records, is_empty, max_inode_record_size,
}

-- With `isize` 0 no block replaces another.
pub put_hashes-zero :
    (hashes : List Bytes) (blocks : List (ℕ × Bytes))
    → put_hashes 0 hashes blocks ≡ hashes ++ map (λ b. b.1) blocks
unfolding put_hashes
put_hashes-zero hashes [] = sym (append-nil hashes)
put_hashes-zero hashes ((offset, name) ∷ blocks) =
    let t : ltb offset 0 ≡ false = ground arith in
    rw t (
      put_hashes-zero (hashes ++ name ∷ []) blocks
      ∙ append_assoc hashes (name ∷ []) (map (λ b. b.1) blocks))

module _ {S : Type 0} (env : Env S) where
  pub isize-current_records :
      (dcname name aes_key : Bytes) (m : Mid S) (ino : InodeRecord) (bm : BlockMapRecord)
      → (current_records env dcname name aes_key m).0 ≡ ok (ino, bm)
      → ino.isize ≡ 0
  unfolding current_records get_pdu
  isize-current_records dcname name aes_key m ino bm e = ground arith

  -- The key that is loaded is the first half of the encrypted one in the inode record.
  pub key-current_records :
      (dcname name aes_key bytes : Bytes) (m : Mid S) (ino : InodeRecord) (bm : BlockMapRecord)
      → is_empty name ≡ false
      → env.srv.read_record dcname name max_inode_record_size m.server ≡ ok bytes
      → (current_records env dcname name aes_key m).0 ≡ ok (ino, bm)
      → ino.key ≡ bytes_at (of_bytes (env.pb.parse_from_array bytes).payload_in_transit) 8 16
  unfolding current_records get_pdu
  key-current_records dcname name aes_key bytes m ino bm n r e = ground arith
