-- ===== src/DcClient/Kept.antt =====
-- What the calls and the handlers keep true of the puts and gets that wait.
use dcfs_client.Base.{
  ◌≡◌, refl, sym, Bool, true, false, ◌&&◌, not, Option, none, some, List, [], ◌∷◌, Bytes, length,
  bytes_eq, bytes_eq_iff, ◌==◌, Outcome, arith, subst, ◌⊎◌, inl, inr, Bool-cases, Option-cases,
}
use dcfs_client.DcClient.{
  PutStatus, GetStatus, DcGetOptions, DcClient, same_flag, set_put, set_get, put_call, put_return,
  get_call, commit_ack, answer,
}

-- What was answered: the key, with its flag, and the bytes.
abbrev pub Answer : Type 0
Answer = Bytes × Bool × Bytes

abbrev pub Has : {A : Type 0} → A → List A → Type 0
Has x [] = ⊥
Has x (y ∷ ys) = (x ≡ y) ⊎ Has x ys

unfoldable pub PutOk : List Bytes → DcClient → Type 0
PutOk acks c = (k : Bytes) (p : PutStatus) → c.put_status k ≡ some p → p.done ≡ true → Has k acks

abbrev pub Right : List Answer → Bytes → Bool → GetStatus → Type 0
Right answers k f g =
    g.done ≡ true → (srl : Bytes) × (g.srl_pdu ≡ some srl) × (g.ret ≡ 0) × Has (k, f, srl) answers

unfoldable pub GetOk : List Answer → DcClient → Type 0
GetOk answers c =
    (k : Bytes) (f : Bool) (g : GetStatus) → c.get_status k f ≡ some g → Right answers k f g

some-injective : {A : Type 0} {a b : A} → some a ≡ some b → a ≡ b
some-injective e = cc

same_flag→eq : (b f : Bool) → same_flag b f ≡ true → b ≡ f
same_flag→eq true true e = refl
same_flag→eq true false e = cc
same_flag→eq false true e = cc
same_flag→eq false false e = refl

set_put-PutOk :
    (hash : Bytes) (q : Option PutStatus) (acks : List Bytes) (c : DcClient)
    → ((p : PutStatus) → q ≡ some p → p.done ≡ true → Has hash acks)
    → PutOk acks c
    → PutOk acks (set_put hash q c)
unfolding PutOk
set_put-PutOk hash q acks c h v k p e d = elim (Bool-cases (bytes_eq hash k)) [
  | inl t ↦
      let same = (bytes_eq_iff hash k).0 t in
      let here : q ≡ some p = rw t at e in subst (λ (x : Bytes). Has x acks) same (h p here d)
  | inr t ↦ let old : c.put_status k ≡ some p = rw t at e in v k p old d
]

set_get-GetOk :
    (hash : Bytes) (b : Bool) (q : GetStatus) (answers : List Answer) (c : DcClient)
    → Right answers hash b q
    → GetOk answers c
    → GetOk answers (set_get hash b q c)
unfolding GetOk
set_get-GetOk hash b q answers c h v k f g e =
    elim (Bool-cases (bytes_eq hash k && same_flag b f)) [
      | inl t ↦
          let name : hash ≡ k = (bytes_eq_iff hash k).0 (ground arith) in
          let flag : b ≡ f = same_flag→eq b f (ground arith) in
          let here : some q ≡ some g = rw t at e in
          subst (λ (x : GetStatus). Right answers k f x) (some-injective here)
            (subst (λ (x : Bytes). Right answers x f q) name
              (subst (λ (x : Bool). Right answers hash x q) flag h))
      | inr t ↦ let old : c.get_status k f ≡ some g = rw t at e in v k f g old
    ]

pub put_call-PutOk :
    (hash srl : Bytes) (acks : List Bytes) (c : DcClient)
    → PutOk acks c
    → PutOk acks (put_call hash srl c)
unfolding PutOk put_call
put_call-PutOk hash srl acks c v = elim (Option-cases (c.put_status hash)) [
  | inl t ↦
      rw (put_call, t)
        (set_put-PutOk hash (some (record { done = false; ret = 0 })) acks c
          (λ p e d. let x : record { done = false; ret = 0 } ≡ p = some-injective e in cc) v)
  | inr (p, t) ↦ rw (put_call, t) v
]

put_return-end :
    (hash : Bytes) (c d : DcClient) (r : Outcome (Unit {0}))
    → put_return hash c ≡ some (r, d)
    → (d ≡ c) ⊎ (d ≡ set_put hash none c)
unfolding put_return
put_return-end hash c d r e = ground arith

pub put_return-PutOk :
    (hash : Bytes) (c d : DcClient) (r : Outcome (Unit {0})) (acks : List Bytes)
    → put_return hash c ≡ some (r, d)
    → PutOk acks c
    → PutOk acks d
put_return-PutOk hash c d r acks e v = elim (put_return-end hash c d r e) [
  | inl q ↦ subst (PutOk acks) (sym q) v
  | inr q ↦ subst (PutOk acks) (sym q) (set_put-PutOk hash none acks c (λ p e d. cc) v)
]

pub put_return-GetOk :
    (hash : Bytes) (c d : DcClient) (r : Outcome (Unit {0})) (answers : List Answer)
    → put_return hash c ≡ some (r, d)
    → GetOk answers c
    → GetOk answers d
unfolding GetOk
put_return-GetOk hash c d r answers e v = elim (put_return-end hash c d r e) [
  | inl q ↦ subst (GetOk answers) (sym q) v
  | inr q ↦ subst (GetOk answers) (sym q) v
]

pub put_call-GetOk :
    (hash srl : Bytes) (answers : List Answer) (c : DcClient)
    → GetOk answers c
    → GetOk answers (put_call hash srl c)
unfolding GetOk put_call
put_call-GetOk hash srl answers c v = elim (Option-cases (c.put_status hash)) [
  | inl t ↦ rw (put_call, t) v
  | inr (p, t) ↦ rw (put_call, t) v
]

pub get_call-puts :
    (hash : Bytes) (opt : DcGetOptions) (c : DcClient)
    → (get_call hash opt c).1.put_status ≡ c.put_status
unfolding get_call
get_call-puts hash opt c = ground arith

pub get_call-GetOk :
    (hash : Bytes) (opt : DcGetOptions) (answers : List Answer) (c : DcClient)
    → GetOk answers c
    → GetOk answers (get_call hash opt c).1
unfolding GetOk get_call
get_call-GetOk hash opt answers c v =
    let entry : GetStatus = record {
      done = false;
      ret = 0;
      srl_pdu = none;
      is_fresh_req = opt.is_fresh_req;
      is_metaonly_req = opt.is_metaonly_req;
    } in
    elim (Bool-cases (opt.is_fresh_req && not (length hash == 0))) [
      | inl t ↦ rw (get_call, t) v
      | inr t ↦ elim (Bool-cases (opt.is_fresh_req && opt.is_metaonly_req)) [
        | inl u ↦ rw (get_call, t, u) v
        | inr u ↦ elim (Option-cases (c.get_status hash opt.is_metaonly_req)) [
          | inl n ↦
              rw (get_call, t, u, n)
                (set_get-GetOk hash opt.is_metaonly_req entry answers c (λ d. cc) v)
          | inr (g, n) ↦ rw (get_call, t, u, n) v
        ]
      ]
    ]

pub commit_ack-PutOk :
    (hash : Bytes) (acks : List Bytes) (c : DcClient)
    → PutOk acks c
    → PutOk (hash ∷ acks) (commit_ack hash c).1
unfolding PutOk commit_ack
commit_ack-PutOk hash acks c v =
    let more : PutOk (hash ∷ acks) c = λ k p e d. inr (v k p e d) in
    elim (Option-cases (c.put_status hash)) [
      | inl t ↦ rw (commit_ack, t) more
      | inr (p, t) ↦
          rw (commit_ack, t)
            (set_put-PutOk hash (some (record { done = true; ret = 0 })) (hash ∷ acks) c
              (λ p e d. inl refl) more)
    ]

pub commit_ack-GetOk :
    (hash : Bytes) (answers : List Answer) (c : DcClient)
    → GetOk answers c
    → GetOk answers (commit_ack hash c).1
unfolding GetOk commit_ack
commit_ack-GetOk hash answers c v = elim (Option-cases (c.put_status hash)) [
  | inl t ↦ rw (commit_ack, t) v
  | inr (p, t) ↦ rw (commit_ack, t) v
]

pub answer-puts :
    (hash : Bytes) (f : Bool) (srl : Bytes) (c : DcClient)
    → (answer hash f srl c).1.put_status ≡ c.put_status
unfolding answer
answer-puts hash f srl c = ground arith

pub answer-GetOk :
    (hash : Bytes) (f : Bool) (srl : Bytes) (answers : List Answer) (c : DcClient)
    → GetOk answers c
    → GetOk ((hash, f, srl) ∷ answers) (answer hash f srl c).1
unfolding GetOk answer
answer-GetOk hash f srl answers c v =
    let all = (hash, f, srl) ∷ answers in
    let more : GetOk all c = λ k f g e d. let (x, p, q, h) = v k f g e d in (x, p, q, inr h) in
    elim (Option-cases (c.get_status hash f)) [
      | inl t ↦ rw (answer, t) more
      | inr (g, t) ↦
          rw (answer, t)
            (set_get-GetOk hash f (record g { done = true; ret = 0; srl_pdu = some srl }) all c
              (λ d. (srl, refl, refl, inl refl)) more)
    ]
