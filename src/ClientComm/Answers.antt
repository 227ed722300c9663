-- ===== src/ClientComm/Answers.antt =====
-- What becomes of a `Get` while the listening thread handles what arrives.
use dcfs_client.Base.{
  ◌≡◌, refl, ap, ◌∙◌, true, false, Bool, Option, none, some, List, [], ◌∷◌, Bytes, length, bytes_eq,
  bytes_eq_refl, ◌==◌, ◌&&◌, ok, arith, inl, inr, Bool-cases, Option-cases,
}
use dcfs_client.DcClient.{
  GetStatus, DcClient, same_flag, get_return, commit_ack, answer, commit_get_resp,
  commit_fresh_resp,
}
use dcfs_client.ClientComm.{
  Messages, ClientComm, Round, count_and_commit, handle_ack, handle_get_resp, handle_ack_if,
  handle_get_resp_if, then_respond, listen_round, listen_loop,
}
use dcfs_client.ClientComm.Loop.{
  OnResponse, OnResponses, run-keeps, after_round-keeps, all-OnResponses,
}

-- The entry holds an answer.
abbrev pub Answered : GetStatus → Type 0
Answered g = (g.done ≡ true) × (g.ret ≡ 0) × (srl : Bytes) × (g.srl_pdu ≡ some srl)

-- The answer to a `Get` came.
abbrev pub HasAnswer : Bytes → Bool → DcClient → Type 0
HasAnswer key f c = (g : GetStatus) × (c.get_status key f ≡ some g) × Answered g

same_flag_refl : (f : Bool) → same_flag f f ≡ true
same_flag_refl true = refl
same_flag_refl false = refl

HasAnswer-get_return :
    (key : Bytes) (f : Bool) (c : DcClient)
    → HasAnswer key f c
    → (srl : Bytes) × (get_return key f c ≡ some (ok (some srl)))
unfolding get_return
HasAnswer-get_return key f c (g, e, (done, zero, srl, s)) =
    (srl, rw (get_return, e, done, zero, s) refl)

commit_ack-gets : (hash : Bytes) (c : DcClient) → (commit_ack hash c).1.get_status ≡ c.get_status
unfolding commit_ack
commit_ack-gets hash c = ground arith

answer-first :
    (key : Bytes) (f : Bool) (srl : Bytes) (c : DcClient) (g : GetStatus)
    → c.get_status key f ≡ some g
    → HasAnswer key f (answer key f srl c).1
unfolding answer
answer-first key f srl c g e =
    let h : GetStatus = record g { done = true; ret = 0; srl_pdu = some srl } in
    (h, rw (answer, e, bytes_eq_refl key, same_flag_refl f) refl, (refl, refl, srl, refl))

answer-HasAnswer :
    (key hash : Bytes) (f b : Bool) (srl : Bytes) (c : DcClient)
    → HasAnswer key f c
    → HasAnswer key f (answer hash b srl c).1
unfolding answer
answer-HasAnswer key hash f b srl c (g, e, a) = elim (Option-cases (c.get_status hash b)) [
  | inl n ↦ rw (answer, n) (g, e, a)
  | inr (h, n) ↦ elim (Bool-cases (bytes_eq hash key && same_flag b f)) [
    | inl t ↦
        let d : GetStatus = record h { done = true; ret = 0; srl_pdu = some srl } in
        (d, rw (answer, n, t) refl, (refl, refl, srl, refl))
    | inr t ↦ (g, rw (answer, n, t) e, a)
  ]
]

module _ (messages : Messages) where
  handle_ack-gets :
      (msg : Bytes) (c : ClientComm)
      → (handle_ack messages msg c).1.dc_client.get_status ≡ c.dc_client.get_status
  unfolding handle_ack count_and_commit
  handle_ack-gets msg c =
      let hash = (messages.pb.parse_from_array msg).header_hash in
      ground (arith, commit_ack-gets hash c.dc_client)

  abbrev Has : Bytes → Bool → ClientComm → Type 0
  Has key f c = HasAnswer key f c.dc_client

  handle_ack-Has :
      (key : Bytes) (f : Bool) (msg : Bytes) (c : ClientComm)
      → Has key f c
      → Has key f (handle_ack messages msg c).1
  handle_ack-Has key f msg c (g, e, a) =
      (g, ap (λ (s : Bytes → Bool → Option GetStatus). s key f) (handle_ack-gets msg c) ∙ e, a)

  handle_get_resp-Has :
      (key : Bytes) (f : Bool) (msg : Bytes) (c : ClientComm)
      → Has key f c
      → Has key f (handle_get_resp messages msg c)
  unfolding handle_get_resp commit_get_resp commit_fresh_resp
  handle_get_resp-Has key f msg c v =
      let resp = messages.parse_response msg in
      elim (Bool-cases resp.success) [
        | inl t ↦ elim (Bool-cases resp.fresh_resp) [
          | inl r ↦ rw (handle_get_resp, t, r) (answer-HasAnswer key resp.hash f _ _ c.dc_client v)
          | inr r ↦ rw (handle_get_resp, t, r) (answer-HasAnswer key resp.hash f _ _ c.dc_client v)
        ]
        | inr t ↦ rw (handle_get_resp, t) v
      ]

  -- The answer to a plain request.
  handle_get_resp-first :
      (msg key : Bytes) (c : ClientComm) (g : GetStatus)
      → let resp = messages.parse_response msg in
        c.dc_client.get_status key (length resp.pdu.payload_in_transit == 0) ≡ some g
        → resp.success ≡ true
        → resp.fresh_resp ≡ false
        → resp.hash ≡ key
        → Has key (length resp.pdu.payload_in_transit == 0) (handle_get_resp messages msg c)
  unfolding handle_get_resp commit_get_resp
  handle_get_resp-first msg key c g e t r h =
      rw (handle_get_resp, t, r, h) (answer-first key _ _ c.dc_client g e)

  run-Has :
      (key : Bytes) (f : Bool) (rounds : List Round) (c : ClientComm)
      → Has key f c
      → Has key f (listen_loop messages rounds c).1
  run-Has key f rounds c v =
      run-keeps messages (Has key f) (handle_ack-Has key f) rounds c
        (all-OnResponses messages (Has key f) (handle_ack-Has key f) (handle_get_resp-Has key f)
          rounds)
        v

  answered_round :
      (round : Round) (msg : Bytes) (c : ClientComm)
      → round.ack ≡ none
      → round.get_resp ≡ some msg
      → listen_round messages round c ≡ (ok tt, handle_get_resp messages msg c)
  unfolding listen_round handle_ack_if handle_get_resp_if then_respond
  answered_round round msg c n s = rw (listen_round, n, s) refl

  -- A `Get` that waits for a hash, with the flag that tells whether the response has no payload,
  -- returns once the listening thread has had one successful response with that hash, that is none
  -- about freshness, in a round without an acknowledgement: whatever the later rounds bring, the `Get`
  -- gets past its wait without a fault, and what it returns is not NULL.
  pub get_completes :
      (msg key : Bytes) (c : ClientComm) (g : GetStatus)
      → let resp = messages.parse_response msg in
        let flag = length resp.pdu.payload_in_transit == 0 in
        c.dc_client.get_status key flag ≡ some g
        → resp.success ≡ true
        → resp.fresh_resp ≡ false
        → resp.hash ≡ key
        → (round : Round) → round.ack ≡ none
        → round.get_resp ≡ some msg
        → (rounds : List Round)
        → (srl : Bytes) × (get_return key flag (listen_loop messages (round ∷ rounds) c).1.dc_client
            ≡ some (ok (some srl)))
  unfolding listen_loop
  get_completes msg key c g e t r h round n s rounds =
      let flag = length (messages.parse_response msg).pdu.payload_in_transit == 0 in
      let first = handle_get_resp-first msg key c g e t r h in
      HasAnswer-get_return key flag _ (
        after_round-keeps messages (Has key flag) (handle_ack-Has key flag) round.end_signal
          (listen_round messages round c) (listen_loop messages rounds)
          (λ d w. run-Has key flag rounds d w) (rw (answered_round round msg c n s) first))

  -- Every response has no success.
  abbrev Refusal : Option Bytes → Type 0
  Refusal none = Unit {0}
  Refusal (some msg) = (messages.parse_response msg).success ≡ false

  abbrev pub Refusals : List Round → Type 0
  Refusals [] = Unit {0}
  Refusals (round ∷ rounds) = Refusal round.get_resp × Refusals rounds

  -- The gets are as they were.
  abbrev Same : DcClient → ClientComm → Type 0
  Same old c = c.dc_client.get_status ≡ old.get_status

  handle_ack-Same :
      (old : DcClient) (msg : Bytes) (c : ClientComm)
      → Same old c
      → Same old (handle_ack messages msg c).1
  handle_ack-Same old msg c v = handle_ack-gets msg c ∙ v

  Refusal-OnResponse :
      (old : DcClient) (resp : Option Bytes)
      → Refusal resp
      → OnResponse messages (Same old) (handle_ack-Same old) resp
  unfolding handle_get_resp
  Refusal-OnResponse old none r = tt
  Refusal-OnResponse old (some msg) r = λ c v. rw (handle_get_resp, r) v

  Refusals-OnResponses :
      (old : DcClient) (rounds : List Round)
      → Refusals rounds
      → OnResponses messages (Same old) (handle_ack-Same old) rounds
  Refusals-OnResponses old [] r = tt
  Refusals-OnResponses old (round ∷ rounds) r =
      (Refusal-OnResponse old round.get_resp r.0, Refusals-OnResponses old rounds r.1)

  get_return-same :
      (key : Bytes) (f : Bool) (c d : DcClient)
      → d.get_status ≡ c.get_status
      → get_return key f d ≡ get_return key f c
  unfolding get_return
  get_return-same key f c d e =
      rw (get_return, ap (λ (s : Bytes → Bool → Option GetStatus). s key f) e) refl

  -- A server's answer that it has no such record ends no `Get`: over rounds whose responses are all
  -- without success, whatever else they bring, every `Get` is where it was, and one that waits goes on
  -- waiting.
  pub refused_get_waits :
      (rounds : List Round) (c : ClientComm)
      → Refusals rounds
      → (key : Bytes) (f : Bool)
      → get_return key f (listen_loop messages rounds c).1.dc_client ≡ get_return key f c.dc_client
  refused_get_waits rounds c r key f = get_return-same key f c.dc_client _ (
      run-keeps messages (Same c.dc_client) (handle_ack-Same c.dc_client) rounds c
        (Refusals-OnResponses c.dc_client rounds r) refl)
