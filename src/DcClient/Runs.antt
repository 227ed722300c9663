-- ===== src/DcClient/Runs.antt =====
-- The runs of a client: calls and handlers in any order, and what holds in all of them.
use dcfs_client.Base.{
  ◌≡◌, sym, ap, ◌∙◌, false, Option, some, List, [], ◌∷◌, Bytes, length, ◌==◌, Outcome,
}
use dcfs_client.Capsule.{Pdu, Protobuf}
use dcfs_client.DcClient.{
  PutStatus, DcGetOptions, DcClient, new_client, put_call, put_return, get_call, commit_ack,
  commit_get_resp, commit_fresh_resp,
}
use dcfs_client.DcClient.Kept.{
  Answer, PutOk, GetOk, put_call-PutOk, put_return-PutOk, put_return-GetOk, put_call-GetOk,
  get_call-puts, get_call-GetOk, commit_ack-PutOk, commit_ack-GetOk, answer-puts, answer-GetOk,
}

module _ (pb : Protobuf) (to_string : List Bytes → Bytes) where
  -- The states that a client reaches, with the acknowledgements and the answers that came on the way.
  pub data Reach : List Bytes → List Answer → DcClient → Type 0 where
    start : Reach [] [] new_client
    puts :
        (hash srl : Bytes) {acks : List Bytes} {answers : List Answer} {c : DcClient}
        → Reach acks answers c
        → Reach acks answers (put_call hash srl c)
    put_ends :
        (hash : Bytes) (r : Outcome (Unit {0})) (d : DcClient) {acks : List Bytes}
        {answers : List Answer} {c : DcClient}
        → put_return hash c ≡ some (r, d)
        → Reach acks answers c
        → Reach acks answers d
    gets :
        (hash : Bytes) (opt : DcGetOptions) {acks : List Bytes} {answers : List Answer}
        {c : DcClient}
        → Reach acks answers c
        → Reach acks answers (get_call hash opt c).1
    acked :
        (hash : Bytes) {acks : List Bytes} {answers : List Answer} {c : DcClient}
        → Reach acks answers c
        → Reach (hash ∷ acks) answers (commit_ack hash c).1
    answered :
        (hash : Bytes) (pdu : Pdu) {acks : List Bytes} {answers : List Answer} {c : DcClient}
        → Reach acks answers c
        → Reach acks
            ((hash, length pdu.payload_in_transit == 0, pb.pdu_to_array pdu) ∷ answers)
            (commit_get_resp pb hash pdu c).1
    fresh_answered :
        (hash : Bytes) (hashes : List Bytes) {acks : List Bytes} {answers : List Answer}
        {c : DcClient}
        → Reach acks answers c
        → Reach acks
            ((hash, false, to_string hashes) ∷ answers)
            (commit_fresh_resp to_string hash hashes c).1

module _ (pb : Protobuf) (to_string : List Bytes → Bytes) where
  PutOk-same :
      (acks : List Bytes) (c d : DcClient)
      → d.put_status ≡ c.put_status
      → PutOk acks c
      → PutOk acks d
  unfolding PutOk
  PutOk-same acks c d q v k p e = v k p (sym (ap (λ (s : Bytes → Option PutStatus). s k) q) ∙ e)

  pub Reach-PutOk :
      {acks : List Bytes} {answers : List Answer} {c : DcClient}
      → Reach pb to_string acks answers c
      → PutOk acks c
  unfolding PutOk new_client commit_get_resp commit_fresh_resp
  Reach-PutOk start = λ k p e d. cc
  Reach-PutOk (puts hash srl {acks} {answers} {c} r) =
      put_call-PutOk hash srl acks c (Reach-PutOk r)
  Reach-PutOk (put_ends hash x d {acks} {answers} {c} e r) =
      put_return-PutOk hash c d x acks e (Reach-PutOk r)
  Reach-PutOk (gets hash opt {acks} {answers} {c} r) =
      PutOk-same acks c (get_call hash opt c).1 (get_call-puts hash opt c) (Reach-PutOk r)
  Reach-PutOk (acked hash {acks} {answers} {c} r) = commit_ack-PutOk hash acks c (Reach-PutOk r)
  Reach-PutOk (answered hash pdu {acks} {answers} {c} r) =
      PutOk-same acks c (commit_get_resp pb hash pdu c).1 (answer-puts hash _ _ c) (Reach-PutOk r)
  Reach-PutOk (fresh_answered hash hashes {acks} {answers} {c} r) =
      PutOk-same acks c (commit_fresh_resp to_string hash hashes c).1 (answer-puts hash _ _ c)
        (Reach-PutOk r)

  pub Reach-GetOk :
      {acks : List Bytes} {answers : List Answer} {c : DcClient}
      → Reach pb to_string acks answers c
      → GetOk answers c
  unfolding GetOk new_client commit_get_resp commit_fresh_resp
  Reach-GetOk start = λ k f g e d. cc
  Reach-GetOk (puts hash srl {acks} {answers} {c} r) =
      put_call-GetOk hash srl answers c (Reach-GetOk r)
  Reach-GetOk (put_ends hash x d {acks} {answers} {c} e r) =
      put_return-GetOk hash c d x answers e (Reach-GetOk r)
  Reach-GetOk (gets hash opt {acks} {answers} {c} r) =
      get_call-GetOk hash opt answers c (Reach-GetOk r)
  Reach-GetOk (acked hash {acks} {answers} {c} r) = commit_ack-GetOk hash answers c (Reach-GetOk r)
  Reach-GetOk (answered hash pdu {acks} {answers} {c} r) =
      answer-GetOk hash (length pdu.payload_in_transit == 0) (pb.pdu_to_array pdu) answers c
        (Reach-GetOk r)
  Reach-GetOk (fresh_answered hash hashes {acks} {answers} {c} r) =
      answer-GetOk hash false (to_string hashes) answers c (Reach-GetOk r)
