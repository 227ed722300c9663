-- ===== src/DcServer/Net.antt =====
-- fs/backend_real.cpp, class DCServerNet: records are asked of and sent to the servers through the
-- DCClient. As there, a call that waits is two functions, up to the wait and from it on. The name of the
-- capsule is not used.
use dcfs_client.Base.{
  ℕ, ◌≤◌, ◌≡◌, ◌⊎◌, refl, ap, ◌∙◌, false, Option, none, some, List, Bytes, length, leb, leb→le,
  if◌then◌else◌, Outcome, ok, err, fault, err_io, arith, inl, inr, Bool-cases,
}
use dcfs_client.Capsule.{Protobuf}
use dcfs_client.DcClient.{DcGetOptions, DcClient, put_call, put_return, get_call, get_return}
use dcfs_client.DcClient.Kept.{Answer, Has}
use dcfs_client.DcClient.Runs.{Reach}
use dcfs_client.DcClient.Returns.{get_return_answered}

abbrev pub plain : DcGetOptions
plain = record { is_fresh_req = false; is_metaonly_req = false }

-- `ReadRecord` up to its wait.
unfoldable pub net_read_call : Bytes → DcClient → Outcome (Unit {0}) × DcClient
net_read_call recordname c = get_call recordname plain c

abbrev pub copy_record : ℕ → Outcome (Option Bytes) → Outcome Bytes
copy_record room (ok none) = err err_io
copy_record room (ok (some out)) = if leb (length out) room then ok out else fault
copy_record room (err e) = fault
copy_record room fault = fault

abbrev pub read_ended : ℕ → Option (Outcome (Option Bytes)) → Option (Outcome Bytes)
read_ended room none = none
read_ended room (some r) = some (copy_record room r)

-- `ReadRecord` from its wait on: `none` while it waits. `room` is the size of the buffer.
unfoldable pub net_read_return : Bytes → ℕ → DcClient → Option (Outcome Bytes)
net_read_return recordname room c = read_ended room (get_return recordname false c)

-- `WriteRecord` up to its wait.
unfoldable pub net_write_call : Bytes → Bytes → DcClient → DcClient
net_write_call recordname bytes c = put_call recordname bytes c

-- `WriteRecord` from its wait on, which then returns NO_ERR.
unfoldable pub net_write_return : Bytes → DcClient → Option (Outcome (Unit {0}) × DcClient)
net_write_return recordname c = put_return recordname c

read_ended-some :
    (room : ℕ) (x : Option (Outcome (Option Bytes))) (r : Outcome Bytes)
    → read_ended room x ≡ some r
    → (r ≡ fault) ⊎ ((out : Option Bytes) × (x ≡ some (ok out)) × (r ≡ copy_record room (ok out)))
read_ended-some room none r e = cc
read_ended-some room (some (ok out)) r e = inr (out, refl, ground arith)
read_ended-some room (some (err x)) r e = inl (ground arith)
read_ended-some room (some fault) r e = inl (ground arith)

module _ (pb : Protobuf) (to_string : List Bytes → Bytes) where
  -- In every run of a client, with its calls and handlers in any order, a `ReadRecord` that gets past
  -- its wait either ends the program or returns bytes that fit the caller's buffer and came as an
  -- answer for the record's name; it never returns ERR_IO.
  pub net_read_return_answered :
      (acks : List Bytes) (answers : List Answer) (c : DcClient)
      → Reach pb to_string acks answers c
      → (recordname : Bytes) (room : ℕ) (r : Outcome Bytes)
      → net_read_return recordname room c ≡ some r
      → (r ≡ fault)
        ⊎ ((bytes : Bytes) × (r ≡ ok bytes)
            × (length bytes ≤ room)
            × Has (recordname, false, bytes) answers)
  unfolding net_read_return
  net_read_return_answered acks answers c run recordname room r e =
      elim (read_ended-some room (get_return recordname false c) r e) [
        | inl f ↦ inl f
        | inr t ↦
            let (out, g, is) = t in
            let (srl, at, has) =
              get_return_answered pb to_string acks answers c run recordname false out g in
            let copied : r ≡ copy_record room (ok (some srl)) =
              is ∙ ap (λ (o : Option Bytes). copy_record room (ok o)) at in
            elim (Bool-cases (leb (length srl) room)) [
              | inl l ↦ inr (srl, copied ∙ rw l refl, leb→le (length srl) room l, has)
              | inr l ↦ inl (copied ∙ rw l refl)
            ]
      ]
