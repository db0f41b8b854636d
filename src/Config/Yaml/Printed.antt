-- ===== src/Config/Yaml/Printed.antt =====
-- A setting that is written out reads back.
use progress_claw_machine.Shared.Printed.{strip-show_ℤ}
use mathlib.Core.Path.{subst}
use mathlib.Core.List.{append-nil, append_assoc}
use progress_claw_machine.Shared.{
  ℕ, suc, ℤ, pos, negsuc, Text, codes, split_once, before_first, strip, lstrip, rstrip, lower,
  is_space, any, ◌==◌, ◌≡◌, refl, ap, sym, ◌∙◌, false, Option, none, some, [], ◌∷◌, ◌++◌, map,
  arith,
}
use progress_claw_machine.Shared.Decimal.{
  show_ℤ, show_ℕ, AllDigits, show_ℕ-digits, show_ℤ-pos, show_ℤ-negsuc,
}
use progress_claw_machine.Shared.Printed.{rstrip-append-show_ℤ, read_int-show_ℤ}
use progress_claw_machine.Config.Yaml.{
  is_empty, integer, number_or_text, read_line, coerce_plain, Dict,
}

-- A name that a line can have before its colon.
pub record IsKey (key : Text) : Type 0 where
  pub first : ℕ
  pub others : Text
  pub nonempty : key ≡ first ∷ others
  pub unspaced : is_space first ≡ false
  pub untrailed : strip key ≡ key
  pub no_colon : split_once b':' key ≡ none
  pub no_hash : before_first b'#' key ≡ key

before_first-append :
    (c : ℕ) (s t : Text) → before_first c s ≡ s → before_first c (s ++ t) ≡ s ++ before_first c t
unfolding before_first
before_first-append c [] t h = refl
before_first-append c (d ∷ s) t h = ground (arith, before_first-append c s t)

split_once-append :
    (c : ℕ) (s t : Text) → split_once c s ≡ none → split_once c (s ++ c ∷ t) ≡ some (s, t)
unfolding split_once
split_once-append c [] t h = ground arith
split_once-append c (d ∷ s) t h = ground (arith, split_once-append c s t)

-- What the digits of a number leave alone.
record IsPlain (s : Text) : Type 0 where
  no_hash : before_first b'#' s ≡ s
  same_lower : map lower s ≡ s
  no_dot : any (λ c. c == b'.') s ≡ false

IsPlain-digits : (s : Text) → AllDigits s → IsPlain s
unfolding before_first
IsPlain-digits [] h = record { no_hash = refl; same_lower = refl; no_dot = refl }
IsPlain-digits (c ∷ s) h = let k = IsPlain-digits s h.2 in ground arith

IsPlain-show_ℕ : (n : ℕ) → IsPlain (show_ℕ n)
IsPlain-show_ℕ n =
    let (c, s, e, h) = show_ℕ-digits n in subst IsPlain (sym e) (IsPlain-digits (c ∷ s) h)

IsPlain-minus : (s : Text) → IsPlain s → IsPlain (b'-' ∷ s)
unfolding before_first
IsPlain-minus s h = ground arith

IsPlain-show_ℤ : (n : ℤ) → IsPlain (show_ℤ n)
IsPlain-show_ℤ (pos n) = subst IsPlain (sym (show_ℤ-pos n)) (IsPlain-show_ℕ n)
IsPlain-show_ℤ (negsuc n) =
    subst IsPlain (sym (show_ℤ-negsuc n)) (IsPlain-minus (show_ℕ (suc n)) (IsPlain-show_ℕ (suc n)))

-- The line that sets a key to an integer, before a comment.
abbrev pub printed : Text → ℤ → Text
printed key n = key ++ codes ": " ++ show_ℤ n

no_hash_printed :
    (key : Text) (n : ℤ) → IsKey key → before_first b'#' (printed key n) ≡ printed key n
unfolding before_first
no_hash_printed key n k =
    let colon = before_first-append b'#' key (codes ": ") k.no_hash in
    before_first-append b'#' (key ++ codes ": ") (show_ℤ n) colon
    ∙ ap (λ t. (key ++ codes ": ") ++ t) (IsPlain-show_ℤ n).no_hash

before_first_comment :
    (key : Text) (n : ℤ) (comment : Text)
    → IsKey key
    → before_first b'#' (printed key n ++ b'#' ∷ comment) ≡ printed key n
unfolding before_first
before_first_comment key n comment k =
    before_first-append b'#' (printed key n) (b'#' ∷ comment) (no_hash_printed key n k)
    ∙ append-nil (printed key n)

lstrip_word : (c : ℕ) (s : Text) → is_space c ≡ false → lstrip (c ∷ s) ≡ c ∷ s
lstrip_word c s h = rw (h, lstrip) refl

strip-printed : (key : Text) (n : ℤ) → IsKey key → strip (printed key n) ≡ printed key n
strip-printed key n k =
    ap rstrip (
      subst (λ t. lstrip (printed t n) ≡ printed t n) (sym k.nonempty)
        (lstrip_word k.first (printed k.others n) k.unspaced))
    ∙ rstrip-append-show_ℤ (key ++ codes ": ") n

split-printed :
    (key : Text) (n : ℤ) → IsKey key → split_once b':' (printed key n) ≡ some (key, 32 ∷ show_ℤ n)
split-printed key n k =
    ap (split_once b':') (append_assoc key (codes ": ") (show_ℤ n))
    ∙ split_once-append b':' key (32 ∷ show_ℤ n) k.no_colon

module _ (Real : Type 0) (float : Text → Option Real) where
  number_of_show : (n : ℤ) → number_or_text Real float (32 ∷ show_ℤ n) ≡ integer n
  unfolding number_or_text
  number_of_show n =
      let plain = IsPlain-show_ℤ n in
      rw (strip-show_ℤ n, plain.same_lower, plain.no_dot, read_int-show_ℤ n) refl

  -- A line of a settings file that gives an integer to a name, with a comment behind it, is read as
  -- that name with exactly that integer.
  pub read_line-printed :
      (key : Text) (n : ℤ) (comment : Text) (d : Dict Real float)
      → IsKey key
      → read_line Real float (coerce_plain Real float) (printed key n ++ b'#' ∷ comment) d
        ≡ (key, integer n) ∷ d
  unfolding read_line
  read_line-printed key n comment d k =
      let filled : is_empty Real float (printed key n) ≡ false =
        subst (λ t. is_empty Real float (printed t n) ≡ false) (sym k.nonempty) refl in
      rw
        (
          before_first_comment key n comment k,
          strip-printed key n k,
          split-printed key n k,
          filled,
          k.untrailed,
          number_of_show n,
        )
        refl
