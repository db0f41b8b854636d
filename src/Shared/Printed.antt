-- ===== src/Shared/Printed.antt =====
-- Printed integers read back, alone and at the end of a line.
use mathlib.Core.Path.{subst}
use progress_claw_machine.Shared.{
  ℕ, suc, ◌≡◌, refl, sym, ◌∙◌, ap, ℤ, pos, negsuc, Text, strip, rstrip, lstrip, some, [], ◌∷◌, ◌++◌,
  arith,
}
use progress_claw_machine.Shared.Decimal.{
  show_ℤ, show_ℕ, read_int, read_ℕ, AllDigits, show_ℕ-digits, read_ℕ-show_ℕ, read_int_digits,
  read_int_minus, show_ℤ-pos, show_ℤ-negsuc,
}

rstrip_digits : (s : Text) → AllDigits s → rstrip s ≡ s
rstrip_digits [] h = refl
rstrip_digits (c ∷ s) h = rw (rstrip_digits s h.2) (ground arith)

pub rstrip-append :
    (p : Text) (c : ℕ) (s : Text) → rstrip (c ∷ s) ≡ c ∷ s → rstrip (p ++ c ∷ s) ≡ p ++ c ∷ s
rstrip-append [] c s h = h
rstrip-append (x ∷ []) c s h = rw h (ground arith)
rstrip-append (x ∷ y ∷ p) c s h = rw (rstrip-append (y ∷ p) c s h) (ground arith)

-- A text that ends as a printed integer does: in a digit.
pub EndsInDigit : Text → Type 0
EndsInDigit t = (c : ℕ) × (s : Text) × (t ≡ c ∷ s) × (rstrip (c ∷ s) ≡ c ∷ s)

show_ℕ-EndsInDigit : (n : ℕ) → EndsInDigit (show_ℕ n)
unfolding EndsInDigit
show_ℕ-EndsInDigit n = let (c, s, e, h) = show_ℕ-digits n in (c, s, e, rstrip_digits (c ∷ s) h)

pub show_ℤ-EndsInDigit : (n : ℤ) → EndsInDigit (show_ℤ n)
unfolding EndsInDigit
show_ℤ-EndsInDigit (pos n) = rw show_ℤ-pos (show_ℕ-EndsInDigit n)
show_ℤ-EndsInDigit (negsuc n) =
    let (c, s, e, h) = show_ℕ-EndsInDigit (suc n) in
    (b'-', c ∷ s, show_ℤ-negsuc n ∙ ap (λ t. b'-' ∷ t) e, rstrip-append (b'-' ∷ []) c s h)

-- Nothing is stripped from the end of a line that ends in a printed integer.
pub rstrip-append-show_ℤ : (p : Text) (n : ℤ) → rstrip (p ++ show_ℤ n) ≡ p ++ show_ℤ n
unfolding EndsInDigit
rstrip-append-show_ℤ p n =
    let (c, s, e, h) = show_ℤ-EndsInDigit n in
    subst (λ t. rstrip (p ++ t) ≡ p ++ t) (sym e) (rstrip-append p c s h)

lstrip_digits : (c : ℕ) (s : Text) → AllDigits (c ∷ s) → lstrip (c ∷ s) ≡ c ∷ s
lstrip_digits c s h = ground arith

lstrip-show_ℤ : (n : ℤ) → lstrip (show_ℤ n) ≡ show_ℤ n
lstrip-show_ℤ (pos n) =
    let (c, s, e, h) = show_ℕ-digits n in
    subst (λ t. lstrip t ≡ t) (sym (show_ℤ-pos n ∙ e)) (lstrip_digits c s h)
lstrip-show_ℤ (negsuc n) = rw show_ℤ-negsuc refl

pub strip-show_ℤ : (n : ℤ) → strip (show_ℤ n) ≡ show_ℤ n
strip-show_ℤ n = ap rstrip (lstrip-show_ℤ n) ∙ rstrip-append-show_ℤ [] n

-- Reading a printed integer gives it back.
pub read_int-show_ℤ : (n : ℤ) → read_int (show_ℤ n) ≡ some n
read_int-show_ℤ (pos n) =
    let (c, s, e, h) = show_ℕ-digits n in
    read_int_digits (show_ℤ (pos n)) c s n (strip-show_ℤ (pos n) ∙ show_ℤ-pos n ∙ e) h
      (ap read_ℕ (sym e) ∙ read_ℕ-show_ℕ n)
read_int-show_ℤ (negsuc n) =
    read_int_minus (show_ℤ (negsuc n)) (show_ℕ (suc n)) n
      (strip-show_ℤ (negsuc n) ∙ show_ℤ-negsuc n) (read_ℕ-show_ℕ (suc n))
