-- ===== src/Base/Errors.antt =====
-- errno.hpp, and what a call of the program can come to: a value, a negative `err_t`, or a fault,
-- which is a failed `assert` or undefined behaviour (a null dereference, an index out of range).
use mathlib.Core.Path.{◌≡◌, refl, ap}

pub data Err : Type 0 where
  err_not_found err_no_space err_no_conn err_hash err_io err_buf_too_small err_verify : Err
  err_crypto err_sign : Err

pub data Outcome {ℓ} (A : Type ℓ) : Type ℓ where
  ok : A → Outcome A
  err : Err → Outcome A
  fault : Outcome A

pub ok-injective {ℓ} : {A : Type ℓ} {a b : A} → ok a ≡ ok b → a ≡ b
ok-injective e = cc

-- A method on a state `S`. What it wrote before it failed stays written.
abbrev pub Exec {ℓ} : Type ℓ → Type ℓ → Type ℓ
Exec S A = S → Outcome A × S

module _ {ℓ} {S A : Type ℓ} where
  abbrev pub pure : A → Exec S A
  pure a s = (ok a, s)

  abbrev pub fail : Err → Exec S A
  fail e s = (err e, s)

  abbrev pub lift : Outcome A → Exec S A
  lift r s = (r, s)

module _ {ℓ} {S A B : Type ℓ} where
  abbrev pub continue : Outcome A → (A → Exec S B) → Exec S B
  continue (ok a) k s = k a s
  continue (err e) k s = (err e, s)
  continue fault k s = (fault, s)

  infixl 10 ◌>>=◌ ◌>>◌
  abbrev pub ◌>>=◌ : Exec S A → (A → Exec S B) → Exec S B
  ◌>>=◌ m k s = let (r, s') = m s in continue r k s'

  abbrev pub ◌>>◌ : Exec S A → Exec S B → Exec S B
  m >> k = m >>= λ _. k

-- What holds of the state whether the first of two calls went through or not.
pub then-keeps {ℓ κ} :
    {S : Type ℓ} {A B : Type ℓ} (P : S → Type κ) (r : Outcome A) (k : A → Exec S B) (s : S)
    → P s
    → ((a : A) → r ≡ ok a → P (k a s).1)
    → P (continue r k s).1
then-keeps P (ok a) k s h f = f a refl
then-keeps P (err e) k s h f = h
then-keeps P fault k s h f = h

-- Two calls went through: the first did, and the rest is the second.
pub then-ok {ℓ} :
    {S : Type ℓ} {A B : Type ℓ} (r : Outcome A) (k : A → Exec S B) (s : S) {b : B}
    → (continue r k s).0 ≡ ok b
    → (a : A) × (r ≡ ok a) × (continue r k s ≡ k a s)
then-ok (ok a) k s h = (a, refl, refl)
then-ok (err e) k s h = cc
then-ok fault k s h = cc

-- Two calls went through, and the state that the first left.
pub then-step {ℓ} :
    {S : Type ℓ} {A B : Type ℓ} (x : Outcome A × S) (k : A → Exec S B) {b : B} {t : S}
    → continue x.0 k x.1 ≡ (ok b, t)
    → (a : A) × (x ≡ (ok a, x.1)) × (k a x.1 ≡ (ok b, t))
then-step (ok a, s) k e = (a, refl, e)
then-step {S = S} {B = B} (err x, s) k {b} e =
    let no : err x ≡ ok b = ap (λ (z : Outcome B × S). z.0) e in cc
then-step {S = S} {B = B} (fault, s) k {b} e =
    let no : fault ≡ ok b = ap (λ (z : Outcome B × S). z.0) e in cc
