-- ===== src/ClientComm/Late.antt =====
-- A `Put` of a hash that was acknowledged before.
use dcfs_client.Base.{
  ℕ, ◌+◌, ◌<◌, ◌≡◌, refl, sym, ap, ◌∙◌, false, Option, none, some, List, Bytes, ascii, bytes_eq,
  bytes_eq_refl, bytes_eq_iff, ltb, ◌==◌, ◌&&◌, arith, inl, inr, Bool-cases, subst,
}
use dcfs_client.DcClient.{PutStatus, DcClient, put_call, put_return, commit_ack}
use dcfs_client.ClientComm.{
  Messages, ClientComm, Round, int_max, count_and_commit, handle_ack, handle_get_resp, listen_loop,
}
use dcfs_client.ClientComm.Loop.{run-keeps, all-OnResponses}
use dcfs_client.ClientComm.Acks.{handle_get_resp-puts}

commit_ack-other :
    (hash key : Bytes) (c : DcClient)
    → bytes_eq hash key ≡ false
    → (commit_ack hash c).1.put_status key ≡ c.put_status key
unfolding commit_ack
commit_ack-other hash key c e = ground (arith, e)

module _ (messages : Messages) where
  -- Past the threshold nothing is committed.
  count_and_commit-late :
      (hash key : Bytes) (c : ClientComm)
      → 0 < c.recv_ack_map key
      → let d = (count_and_commit messages hash c).1 in
        (0 < d.recv_ack_map key) × (d.dc_client.put_status key ≡ c.dc_client.put_status key)
  unfolding count_and_commit
  count_and_commit-late hash key c l = elim (Bool-cases (bytes_eq hash key)) [
    | inl t ↦
        let same : hash ≡ key = (bytes_eq_iff hash key).0 t in
        let there : 0 < c.recv_ack_map hash =
          subst (λ (k : Bytes). 0 < c.recv_ack_map k) (sym same) l in
        let more : (c.recv_ack_map hash + 1 == 1) ≡ false = ground arith in
        rw (count_and_commit, bytes_eq_refl hash, more, t) (omega arith, refl)
    | inr t ↦ ground (arith, t, l, commit_ack-other hash key c.dc_client t)
  ]

  handle_ack-late :
      (msg key : Bytes) (c : ClientComm)
      → 0 < c.recv_ack_map key
      → let d = (handle_ack messages msg c).1 in
        (0 < d.recv_ack_map key) × (d.dc_client.put_status key ≡ c.dc_client.put_status key)
  unfolding handle_ack
  handle_ack-late msg key c l =
      let ack_dc = messages.pb.parse_from_array msg in
      elim (Bool-cases (
        bytes_eq ack_dc.header.msgtype (ascii "REPLICATION_ACK")
        && ltb (c.recv_ack_map ack_dc.header_hash) int_max)) [
          | inl t ↦ rw (handle_ack, t) (count_and_commit-late ack_dc.header_hash key c l)
          | inr t ↦ rw (handle_ack, t) (l, refl)
        ]

  -- A `Put` that waits for a hash that was acknowledged before.
  abbrev Late : Bytes → ClientComm → Type 0
  Late key c =
      (0 < c.recv_ack_map key)
      × (c.dc_client.put_status key ≡ some (record { done = false; ret = 0 }))

  handle_ack-Late :
      (key msg : Bytes) (c : ClientComm) → Late key c → Late key (handle_ack messages msg c).1
  handle_ack-Late key msg c v = let (l, e) = handle_ack-late msg key c v.0 in (l, e ∙ v.1)

  handle_get_resp-Late :
      (key msg : Bytes) (c : ClientComm) → Late key c → Late key (handle_get_resp messages msg c)
  handle_get_resp-Late key msg c v =
      let (puts, acks) = handle_get_resp-puts messages msg c in
      (
        subst (λ (m : Bytes → ℕ). 0 < m key) (sym acks) v.0,
        ap (λ (s : Bytes → Option PutStatus). s key) puts ∙ v.1,
      )

  Late-put_return : (key : Bytes) (c : ClientComm) → Late key c → put_return key c.dc_client ≡ none
  unfolding put_return
  Late-put_return key c v = rw (put_return, v.1) refl

  put_call-Late :
      (key srl : Bytes) (c : ClientComm)
      → 0 < c.recv_ack_map key
      → c.dc_client.put_status key ≡ none
      → Late key (record c { dc_client = put_call key srl c.dc_client })
  unfolding put_call
  put_call-Late key srl c l e = rw (put_call, e, bytes_eq_refl key) (l, refl)

  -- A `Put` of a hash, an acknowledgement for which was counted before and no other `Put` of which is
  -- waiting, as after one that has returned, waits for ever: whatever the listening thread receives in
  -- whatever rounds, acknowledgements for that hash included, the `Put` does not get past its wait.
  pub second_put_waits :
      (key srl : Bytes) (c : ClientComm)
      → 0 < c.recv_ack_map key
      → c.dc_client.put_status key ≡ none
      → (rounds : List Round)
      → let d = record c { dc_client = put_call key srl c.dc_client } in
        put_return key (listen_loop messages rounds d).1.dc_client ≡ none
  second_put_waits key srl c l e rounds =
      let d = record c { dc_client = put_call key srl c.dc_client } in
      Late-put_return key (listen_loop messages rounds d).1 (
        run-keeps messages (Late key) (handle_ack-Late key) rounds d
          (all-OnResponses messages (Late key) (handle_ack-Late key) (handle_get_resp-Late key)
            rounds)
          (put_call-Late key srl c l e))
