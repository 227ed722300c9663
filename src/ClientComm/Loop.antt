-- ===== src/ClientComm/Loop.antt =====
-- What the handlers keep, the listening loop keeps.
use dcfs_client.Base.{
  true, false, Option, none, some, List, [], ◌∷◌, Bytes, Outcome, ok, err, fault, Exec, Bool,
}
use dcfs_client.ClientComm.{
  Messages, ClientComm, Round, handle_ack, handle_get_resp, handle_ack_if, handle_get_resp_if,
  then_respond, after_round, listen_round, listen_loop,
}

module _ (messages : Messages) (P : ClientComm → Type 0)
    (on_ack : (msg : Bytes) (c : ClientComm) → P c → P (handle_ack messages msg c).1) where
  -- Every response that comes keeps it.
  abbrev pub OnResponse : Option Bytes → Type 0
  OnResponse none = Unit {0}
  OnResponse (some msg) = (c : ClientComm) → P c → P (handle_get_resp messages msg c)

  abbrev pub OnResponses : List Round → Type 0
  OnResponses [] = Unit {0}
  OnResponses (round ∷ rounds) = OnResponse round.get_resp × OnResponses rounds

  ack_if : (ack : Option Bytes) (c : ClientComm) → P c → P (handle_ack_if messages ack c).1
  unfolding handle_ack_if
  ack_if none c v = v
  ack_if (some msg) c v = on_ack msg c v

  response_if :
      (resp : Option Bytes) (c : ClientComm)
      → OnResponse resp
      → P c
      → P (handle_get_resp_if messages resp c)
  unfolding handle_get_resp_if
  response_if none c h v = v
  response_if (some msg) c h v = h c v

  pub then_respond-keeps :
      (resp : Option Bytes) (x : Outcome (Unit {0}) × ClientComm)
      → OnResponse resp
      → P x.1
      → P (then_respond messages resp x).1
  unfolding then_respond
  then_respond-keeps resp (ok u, c) h v = response_if resp c h v
  then_respond-keeps resp (err e, c) h v = v
  then_respond-keeps resp (fault, c) h v = v

  pub listen_round-keeps :
      (round : Round) (c : ClientComm)
      → OnResponse round.get_resp
      → P c
      → P (listen_round messages round c).1
  unfolding listen_round
  listen_round-keeps round c h v = then_respond-keeps round.get_resp _ h (ack_if round.ack c v)

  pub after_round-keeps :
      (end_signal : Bool) (x : Outcome (Unit {0}) × ClientComm) (rest : Exec ClientComm (Unit {0}))
      → ((c : ClientComm) → P c → P (rest c).1)
      → P x.1
      → P (after_round messages end_signal x rest).1
  unfolding after_round
  after_round-keeps true (ok u, c) rest h v = v
  after_round-keeps false (ok u, c) rest h v = h c v
  after_round-keeps end_signal (err e, c) rest h v = v
  after_round-keeps end_signal (fault, c) rest h v = v

  pub run-keeps :
      (rounds : List Round) (c : ClientComm)
      → OnResponses rounds
      → P c
      → P (listen_loop messages rounds c).1
  unfolding listen_loop
  run-keeps [] c h v = v
  run-keeps (round ∷ rounds) c h v =
      after_round-keeps round.end_signal (listen_round messages round c)
        (listen_loop messages rounds) (λ d w. run-keeps rounds d h.1 w)
        (listen_round-keeps round c h.0 v)

-- What every response keeps.
pub all-OnResponses :
    (messages : Messages) (P : ClientComm → Type 0)
    (on_ack : (msg : Bytes) (c : ClientComm) → P c → P (handle_ack messages msg c).1)
    → ((msg : Bytes) (c : ClientComm) → P c → P (handle_get_resp messages msg c))
    → (rounds : List Round) → OnResponses messages P on_ack rounds
all-OnResponses messages P on_ack h [] = tt
all-OnResponses messages P on_ack h (round ∷ rounds) =
    (any round.get_resp, all-OnResponses messages P on_ack h rounds)
  where
    any : (resp : Option Bytes) → OnResponse messages P on_ack resp
    any none = tt
    any (some msg) = h msg
