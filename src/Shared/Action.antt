-- ===== src/Shared/Action.antt =====
-- Methods that mutate an object and may raise. What was written before a raise stays written, so
-- an action gives back the object beside the error too.
use mathlib.Core.Path.{◌≡◌, refl, ap}
use mathlib.Core.Bool.{Bool, true, false}
use mathlib.Core.Logic.{◌⊎◌, inl, inr}

-- What a call gives: a value, or the exception that it raised.
pub data Result {ℓ} (E A : Type ℓ) : Type ℓ where
  ok : A → Result E A
  err : E → Result E A

abbrev pub is_ok {ℓ} : {E A : Type ℓ} → Result E A → Bool
is_ok (ok _) = true
is_ok (err _) = false

abbrev pub Action {ℓ} : Type ℓ → Type ℓ → Type ℓ → Type ℓ
Action E S A = S → Result E A × S

module _ {ℓ} {E S A : Type ℓ} where
  abbrev pub pure : A → Action E S A
  pure a s = (ok a, s)

  -- A pure check on the current object, which may raise.
  abbrev pub check : (S → Result E A) → Action E S A
  check f s = (f s, s)

  abbrev pub gets : (S → A) → Action E S A
  gets f s = (ok (f s), s)

module _ {ℓ} {E S : Type ℓ} where
  abbrev pub modify : (S → S) → Action E S (Unit {ℓ})
  modify f s = (ok tt, f s)

module _ {ℓ} {E S A B : Type ℓ} where
  abbrev pub proceed : Result E A → S → (A → Action E S B) → Result E B × S
  proceed (ok a) s f = f a s
  proceed (err e) s f = (err e, s)

  infixl 10 ◌>>=◌ ◌>>◌
  abbrev pub ◌>>=◌ : Action E S A → (A → Action E S B) → Action E S B
  ◌>>=◌ m f s = let (r, t) = m s in proceed r t f

  abbrev pub ◌>>◌ : Action E S A → Action E S B → Action E S B
  m >> n = m >>= λ _. n

-- To split on what a call gave.
pub Result-cases {ℓ} :
    {E A : Type ℓ} (r : Result E A) → ((a : A) × (r ≡ ok a)) ⊎ ((e : E) × (r ≡ err e))
Result-cases (ok a) = inl (a, refl)
Result-cases (err e) = inr (e, refl)

abbrev value_or {ℓ} : {E A : Type ℓ} → A → Result E A → A
value_or a (ok b) = b
value_or a (err _) = a

pub ok_injective {ℓ} : {E A : Type ℓ} {a b : A} → ◌≡◌ {A = Result E A} (ok a) (ok b) → a ≡ b
ok_injective {a} h = ap (value_or a) h
