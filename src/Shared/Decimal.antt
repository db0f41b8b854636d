-- ===== src/Shared/Decimal.antt =====
-- Decimal print and parse: `str(n)` and `int(s)` on ASCII text (no digit separators).
use Prim.Native.Nat.{ℕ, zero, suc, ◌+◌, ◌*◌, ◌-◌, ◌/◌, ◌%◌, ◌<◌, ◌≤◌}
use mathlib.Core.Path.{◌≡◌, refl, sym, ◌∙◌, ap, subst}
use mathlib.Core.Logic.{inl, inr}
use mathlib.Core.Bool.{Bool, ◌&&◌}
use mathlib.Core.Option.{Option, none, some}
use mathlib.Core.List.{[], ◌∷◌}
use native.Mathlib.Omega.{arith}
use progress_claw_machine.Shared.Tests.{ltb, leb, ◌==◌, if◌then◌else◌, Bool-cases}
use progress_claw_machine.Shared.Int.{ℤ, pos, negsuc}
use progress_claw_machine.Shared.Strings.{Text, strip}

-- The digits of `n`, before `rest`; the fuel `n + 1` is enough (`digits_value`).
pub digits : ℕ → ℕ → Text → Text
digits zero n rest = rest
digits (suc f) n rest =
    let more = digits f (n / 10) ((48 + n % 10) ∷ rest) in
    if ltb n 10 then (48 + n) ∷ rest else more

unfoldable pub show_ℕ : ℕ → Text
unfolding digits
show_ℕ n = digits (suc n) n []

unfoldable pub show_ℤ : ℤ → Text
unfolding show_ℕ
show_ℤ (pos n) = show_ℕ n
show_ℤ (negsuc n) = b'-' ∷ show_ℕ (suc n)

abbrev pub is_digit : ℕ → Bool
is_digit c = leb 48 c && leb c 57

-- The value of a row of digits, after digits of value `n`.
unfoldable pub read_digits : ℕ → Text → Option ℕ
read_digits n [] = some n
read_digits n (c ∷ s) =
    let more = read_digits (n * 10 + (c - 48)) s in if is_digit c then more else none

unfoldable pub read_ℕ : Text → Option ℕ
unfolding read_digits
read_ℕ [] = none
read_ℕ (c ∷ s) = read_digits 0 (c ∷ s)

abbrev negated : Option ℕ → Option ℤ
negated none = none
negated (some zero) = some (pos 0)
negated (some (suc n)) = some (negsuc n)

abbrev counted : Option ℕ → Option ℤ
counted none = none
counted (some n) = some (pos n)

-- `int(s)`; `none` stands for the `ValueError`.
read_signed : Text → Option ℤ
unfolding read_ℕ
read_signed [] = none
read_signed (c ∷ s) =
    if c == b'-'
    then negated (read_ℕ s)
    else if c == b'+'
    then counted (read_ℕ s)
    else counted (read_ℕ (c ∷ s))

unfoldable pub read_int : Text → Option ℤ
unfolding read_signed
read_int s = read_signed (strip s)

-- The digits of `n` read back as `n`, whatever follows.
pub digits_value :
    (f n : ℕ) (rest : Text) → n < f → read_digits 0 (digits f n rest) ≡ read_digits n rest
unfolding digits read_digits
digits_value zero n rest h = elim h [ ]
digits_value (suc f) n rest h = ground (arith, digits_value f (n / 10) ((48 + n % 10) ∷ rest))

abbrev pub AllDigits : Text → Type 0
AllDigits [] = Unit {0}
AllDigits (c ∷ s) = (48 ≤ c) × (c ≤ 57) × AllDigits s

AllDigits-digits : (f n : ℕ) (rest : Text) → n < f → AllDigits rest → AllDigits (digits f n rest)
unfolding digits
AllDigits-digits zero n rest h d = elim h [ ]
AllDigits-digits (suc f) n rest h d =
    ground (arith, AllDigits-digits f (n / 10) ((48 + n % 10) ∷ rest))

digits-ne-nil : (f n : ℕ) (rest : Text) → n < f → (c : ℕ) × (s : Text) × (digits f n rest ≡ c ∷ s)
unfolding digits
digits-ne-nil zero n rest h = elim h [ ]
digits-ne-nil (suc f) n rest h = elim (Bool-cases (ltb n 10)) [
  | inl small ↦ (48 + n, rest, rw small)
  | inr large ↦ rw large (digits-ne-nil f (n / 10) ((48 + n % 10) ∷ rest) (ground arith))
]

-- A printed number is a row of digits.
pub show_ℕ-digits : (n : ℕ) → (c : ℕ) × (s : Text) × (show_ℕ n ≡ c ∷ s) × AllDigits (c ∷ s)
unfolding show_ℕ
show_ℕ-digits n =
    let (c, s, e) = digits-ne-nil (suc n) n [] (omega arith) in
    (c, s, e, subst AllDigits e (AllDigits-digits (suc n) n [] (omega arith) tt))

read_ℕ-cons : (t : Text) (c : ℕ) (s : Text) → t ≡ c ∷ s → read_ℕ t ≡ read_digits 0 t
unfolding read_ℕ
read_ℕ-cons t c s e = subst (λ u. read_ℕ u ≡ read_digits 0 u) (sym e) refl

digits_of_show : (n : ℕ) → read_digits 0 (show_ℕ n) ≡ read_digits n []
unfolding show_ℕ
digits_of_show n = digits_value (suc n) n [] (omega arith)

read_digits-nil : (n : ℕ) → read_digits n [] ≡ some n
unfolding read_digits
read_digits-nil n = refl

-- Reading a printed number gives it back.
pub read_ℕ-show_ℕ : (n : ℕ) → read_ℕ (show_ℕ n) ≡ some n
read_ℕ-show_ℕ n =
    let (c, s, e, h) = show_ℕ-digits n in
    read_ℕ-cons (show_ℕ n) c s e ∙ digits_of_show n ∙ read_digits-nil n

read_signed_digits :
    (c : ℕ) (s : Text) → AllDigits (c ∷ s) → read_signed (c ∷ s) ≡ counted (read_ℕ (c ∷ s))
unfolding read_signed
read_signed_digits c s h = ground arith

read_int-strip : (t : Text) → read_int t ≡ read_signed (strip t)
unfolding read_int
read_int-strip t = refl

pub read_int_digits :
    (t : Text) (c : ℕ) (s : Text) (n : ℕ)
    → strip t ≡ c ∷ s
    → AllDigits (c ∷ s)
    → read_ℕ (c ∷ s) ≡ some n
    → read_int t ≡ some (pos n)
read_int_digits t c s n e h r =
    read_int-strip t ∙ ap read_signed e ∙ read_signed_digits c s h ∙ ap counted r

read_signed_minus : (s : Text) → read_signed (b'-' ∷ s) ≡ negated (read_ℕ s)
unfolding read_signed
read_signed_minus s = refl

pub read_int_minus :
    (t s : Text) (n : ℕ)
    → strip t ≡ b'-' ∷ s
    → read_ℕ s ≡ some (suc n)
    → read_int t ≡ some (negsuc n)
read_int_minus t s n e r = read_int-strip t ∙ ap read_signed e ∙ read_signed_minus s ∙ ap negated r

pub show_ℤ-pos : (n : ℕ) → show_ℤ (pos n) ≡ show_ℕ n
unfolding show_ℤ
show_ℤ-pos n = refl

pub show_ℤ-negsuc : (n : ℕ) → show_ℤ (negsuc n) ≡ b'-' ∷ show_ℕ (suc n)
unfolding show_ℤ
show_ℤ-negsuc n = refl
