-- ===== src/DcClient/Returns.antt =====
-- What a `Put` and a `Get` that return have waited for.
use dcfs_client.Base.{
  ◌≡◌, ◌∙◌, Bool, true, Option, none, some, List, Bytes, ◌==◌, if◌then◌else◌, ok, arith, inl, inr,
  Option-cases,
}
use dcfs_client.Capsule.{Protobuf}
use dcfs_client.DcClient.{PutStatus, GetStatus, DcClient, put_return, get_return}
use dcfs_client.DcClient.Kept.{Answer, Has, PutOk, GetOk}
use dcfs_client.DcClient.Runs.{Reach, Reach-PutOk, Reach-GetOk}

put_return-done :
    (hash : Bytes) (c d : DcClient)
    → put_return hash c ≡ some (ok tt, d)
    → (p : PutStatus) × (c.put_status hash ≡ some p) × (p.done ≡ true)
unfolding put_return
put_return-done hash c d e = elim (Option-cases (c.put_status hash)) [
  | inl t ↦ ground arith
  | inr (p, t) ↦ (p, t, ground arith)
]

get_return-done :
    (hash : Bytes) (f : Bool) (c : DcClient) (out : Option Bytes)
    → get_return hash f c ≡ some (ok out)
    → (g : GetStatus) × (c.get_status hash f ≡ some g)
      × (g.done ≡ true)
      × (out ≡ (if g.ret == 0 then g.srl_pdu else none))
unfolding get_return
get_return-done hash f c out e = elim (Option-cases (c.get_status hash f)) [
  | inl t ↦ ground arith
  | inr (g, t) ↦ (g, t, ground arith, ground arith)
]

module _ (pb : Protobuf) (to_string : List Bytes → Bytes) where
  -- In every run of a client, with its calls and handlers in any order, a `Put` that gets past its
  -- wait without a fault has had an acknowledgement for its hash.
  pub put_return_acked :
      (acks : List Bytes) (answers : List Answer) (c : DcClient)
      → Reach pb to_string acks answers c
      → (hash : Bytes) (d : DcClient) → put_return hash c ≡ some (ok tt, d)
      → Has hash acks
  unfolding PutOk
  put_return_acked acks answers c r hash d e =
      let (p, t, done) = put_return-done hash c d e in Reach-PutOk pb to_string r hash p t done

  -- In every run of a client, with its calls and handlers in any order, a `Get` that gets past its
  -- wait without a fault returns bytes that came as an answer for its hash and its flag, never NULL.
  pub get_return_answered :
      (acks : List Bytes) (answers : List Answer) (c : DcClient)
      → Reach pb to_string acks answers c
      → (hash : Bytes) (f : Bool) (out : Option Bytes) → get_return hash f c ≡ some (ok out)
      → (srl : Bytes) × (out ≡ some srl) × Has (hash, f, srl) answers
  unfolding GetOk
  get_return_answered acks answers c r hash f out e =
      let (g, t, done, is) = get_return-done hash f c out e in
      let (srl, s, z, h) = Reach-GetOk pb to_string r hash f g t done in (srl, is ∙ rw z s, h)
