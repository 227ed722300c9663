-- ===== src/ClientComm/Acks.antt =====
-- What becomes of a `Put` while the listening thread handles what arrives.
use dcfs_client.Base.{
  ◌+◌, ◌≤◌, ◌≡◌, ◌⊎◌, refl, ap, ◌∙◌, true, false, Option, none, some, List, [], ◌∷◌, Bytes, length,
  ascii, bytes_eq_refl, ltb, ok, arith, inl, inr, Bool-cases,
}
use dcfs_client.DcClient.{
  PutStatus, DcClient, set_put, put_return, commit_ack, commit_get_resp, commit_fresh_resp,
}
use dcfs_client.DcClient.Kept.{answer-puts}
use dcfs_client.ClientComm.{
  Messages, ClientComm, Round, int_max, count_and_commit, handle_ack, handle_get_resp,
  handle_ack_if, listen_round, listen_loop,
}
use dcfs_client.ClientComm.Loop.{run-keeps, then_respond-keeps, after_round-keeps, all-OnResponses}

-- The entry of a `Put` that was acknowledged.
abbrev pub acked : PutStatus
acked = record { done = true; ret = 0 }

commit_ack-any :
    (hash key : Bytes) (c : DcClient)
    → ((commit_ack hash c).1.put_status key ≡ c.put_status key)
      ⊎ ((commit_ack hash c).1.put_status key ≡ some acked)
unfolding commit_ack
commit_ack-any hash key c = ground arith

commit_ack-waiting :
    (hash : Bytes) (c : DcClient) (p : PutStatus)
    → c.put_status hash ≡ some p
    → (commit_ack hash c).1.put_status hash ≡ some acked
unfolding commit_ack
commit_ack-waiting hash c p e = rw (commit_ack, e, bytes_eq_refl hash) refl

module _ (messages : Messages) where
  pub handle_get_resp-puts :
      (msg : Bytes) (c : ClientComm)
      → ((handle_get_resp messages msg c).dc_client.put_status ≡ c.dc_client.put_status)
        × ((handle_get_resp messages msg c).recv_ack_map ≡ c.recv_ack_map)
  unfolding handle_get_resp commit_get_resp commit_fresh_resp
  handle_get_resp-puts msg c =
      let resp = messages.parse_response msg in
      elim (Bool-cases resp.success) [
        | inl t ↦ elim (Bool-cases resp.fresh_resp) [
          | inl f ↦ rw (handle_get_resp, t, f) (answer-puts resp.hash _ _ c.dc_client, refl)
          | inr f ↦ rw (handle_get_resp, t, f) (answer-puts resp.hash _ _ c.dc_client, refl)
        ]
        | inr t ↦ rw (handle_get_resp, t) (refl, refl)
      ]

  count_and_commit-any :
      (hash key : Bytes) (c : ClientComm)
      → let d = (count_and_commit messages hash c).1.dc_client in
        (d.put_status key ≡ c.dc_client.put_status key) ⊎ (d.put_status key ≡ some acked)
  unfolding count_and_commit
  count_and_commit-any hash key c = ground (arith, commit_ack-any hash key c.dc_client)

  handle_ack-any :
      (msg key : Bytes) (c : ClientComm)
      → let d = (handle_ack messages msg c).1.dc_client in
        (d.put_status key ≡ c.dc_client.put_status key) ⊎ (d.put_status key ≡ some acked)
  unfolding handle_ack
  handle_ack-any msg key c =
      let hash = (messages.pb.parse_from_array msg).header_hash in
      ground (arith, count_and_commit-any hash key c)

  -- A `Put` whose entry is done.
  abbrev Done : Bytes → ClientComm → Type 0
  Done key c = c.dc_client.put_status key ≡ some acked

  handle_ack-Done :
      (key msg : Bytes) (c : ClientComm) → Done key c → Done key (handle_ack messages msg c).1
  handle_ack-Done key msg c v = elim (handle_ack-any msg key c) [ inl e ↦ e ∙ v | inr e ↦ e ]

  handle_get_resp-Done :
      (key msg : Bytes) (c : ClientComm) → Done key c → Done key (handle_get_resp messages msg c)
  handle_get_resp-Done key msg c v =
      ap (λ (s : Bytes → Option PutStatus). s key) (handle_get_resp-puts msg c).0 ∙ v

  run-Done :
      (key : Bytes) (rounds : List Round) (c : ClientComm)
      → Done key c
      → Done key (listen_loop messages rounds c).1
  run-Done key rounds c v =
      run-keeps messages (Done key) (handle_ack-Done key) rounds c
        (all-OnResponses messages (Done key) (handle_ack-Done key) (handle_get_resp-Done key)
          rounds)
        v

  -- The first acknowledgement.
  handle_ack-first :
      (msg key : Bytes) (c : ClientComm) (p : PutStatus)
      → c.dc_client.put_status key ≡ some p
      → c.recv_ack_map key ≡ 0
      → 31 ≤ length key
      → (messages.pb.parse_from_array msg).header_hash ≡ key
      → (messages.pb.parse_from_array msg).header.msgtype ≡ ascii "REPLICATION_ACK"
      → Done key (handle_ack messages msg c).1 × ((handle_ack messages msg c).0 ≡ ok tt)
  unfolding handle_ack count_and_commit
  handle_ack-first msg key c p e z l h t =
      let few : ltb 0 int_max ≡ true = refl in
      let reads : ltb (length key + 1) 32 ≡ false = ground arith in
      let done = commit_ack-waiting key c.dc_client p e in
      rw
        (
          handle_ack,
          h,
          t,
          bytes_eq_refl (ascii "REPLICATION_ACK"),
          z,
          count_and_commit,
          bytes_eq_refl key,
          reads,
        )
        (done, refl)

  run-first :
      (round : Round) (msg key : Bytes) (rounds : List Round) (c : ClientComm)
      → round.ack ≡ some msg
      → Done key (handle_ack messages msg c).1
      → Done key (listen_loop messages (round ∷ rounds) c).1
  unfolding listen_loop listen_round handle_ack_if
  run-first round msg key rounds c r v =
      let done : Done key (handle_ack_if messages round.ack c).1 = rw r v in
      let responses =
        all-OnResponses messages (Done key) (handle_ack-Done key) (handle_get_resp-Done key)
          (round ∷ []) in
      after_round-keeps messages (Done key) (handle_ack-Done key) round.end_signal
        (listen_round messages round c) (listen_loop messages rounds)
        (λ d w. run-Done key rounds d w)
        (then_respond-keeps messages (Done key) (handle_ack-Done key) round.get_resp
          (handle_ack_if messages round.ack c) (responses.0) done)

  Done-put_return :
      (key : Bytes) (c : DcClient)
      → c.put_status key ≡ some acked
      → put_return key c ≡ some (ok tt, set_put key none c)
  unfolding put_return
  Done-put_return key c e = rw (put_return, e) refl

  -- A `Put` that waits for a hash of at least 31 bytes, no acknowledgement of which came before,
  -- returns once the listening thread has had one acknowledgement for it: whatever else that round and
  -- the later ones bring, also when one of them ends the program or the loop, the `Put` gets past its
  -- wait without a fault.
  pub put_completes :
      (key : Bytes) (c : ClientComm) (p : PutStatus)
      → c.dc_client.put_status key ≡ some p
      → c.recv_ack_map key ≡ 0
      → 31 ≤ length key
      → (msg : Bytes) → (messages.pb.parse_from_array msg).header_hash ≡ key
      → (messages.pb.parse_from_array msg).header.msgtype ≡ ascii "REPLICATION_ACK"
      → (round : Round) → round.ack ≡ some msg
      → (rounds : List Round)
      → let d = (listen_loop messages (round ∷ rounds) c).1.dc_client in
        put_return key d ≡ some (ok tt, set_put key none d)
  put_completes key c p e z l msg h t round r rounds =
      Done-put_return key _
        (run-first round msg key rounds c r (handle_ack-first msg key c p e z l h t).0)
