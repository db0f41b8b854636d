-- ===== src/Shared/Strings.antt =====
-- Text as its code points, with the methods of Python's `str` that the program calls.
use native.Mathlib.Omega.{arith}
use mathlib.Core.Path.{◌≡◌, refl}
use Prim.Native.Nat.{ℕ, ◌+◌}
use Prim.Native.Char.{code}
use Prim.Native.String.{String}
use mathlib.Core.Bool.{Bool, true, false, ◌&&◌, ◌||◌}
use mathlib.Core.List.{List, [], ◌∷◌}
use progress_claw_machine.Shared.Tests.{leb, ◌==◌, if◌then◌else◌}
use mathlib.Core.Option.{Option, none, some}

abbrev pub Text : Type 0
Text = List ℕ

abbrev pub codes : String → Text
codes String.[] = []
codes (String.◌∷◌ c s) = code c ∷ codes s

-- `s == t`
unfoldable pub text_eq : Text → Text → Bool
text_eq [] [] = true
text_eq [] (_ ∷ _) = false
text_eq (_ ∷ _) [] = false
text_eq (c ∷ s) (d ∷ t) = c == d && text_eq s t

-- `s.startswith(p)`
unfoldable pub starts_with : Text → Text → Bool
starts_with s [] = true
starts_with [] (_ ∷ _) = false
starts_with (c ∷ s) (d ∷ p) = c == d && starts_with s p

-- What `str.isspace` holds of.
abbrev pub is_space : ℕ → Bool
is_space c =
    (leb 9 c && leb c 13)
    || (leb 28 c && leb c 32)
    || c == 133
    || c == 160
    || c == 5760
    || (leb 8192 c && leb c 8202)
    || c == 8232
    || c == 8233
    || c == 8239
    || c == 8287
    || c == 12288

abbrev pub lstrip : Text → Text
lstrip [] = []
lstrip (c ∷ s) = let rest = lstrip s in elim (is_space c) [ true ↦ rest | false ↦ c ∷ s ]

-- `s.rstrip()`: a space goes if nothing but spaces follows it.
abbrev rstrip_after : Bool → ℕ → Text → Text
rstrip_after true c [] = []
rstrip_after true c (d ∷ s) = c ∷ d ∷ s
rstrip_after false c s = c ∷ s

abbrev pub rstrip : Text → Text
rstrip [] = []
rstrip (c ∷ s) = rstrip_after (is_space c) c (rstrip s)

abbrev pub strip : Text → Text
strip s = rstrip (lstrip s)

pub text_eq_refl : (s : Text) → text_eq s s ≡ true
unfolding text_eq
text_eq_refl [] = refl
text_eq_refl (c ∷ s) = ground (arith, text_eq_refl s)

pub text_eq_sound : (s t : Text) → text_eq s t ≡ true → s ≡ t
unfolding text_eq
text_eq_sound [] [] h = refl
text_eq_sound [] (d ∷ t) h = cc
text_eq_sound (c ∷ s) [] h = cc
text_eq_sound (c ∷ s) (d ∷ t) h = ground (arith, text_eq_sound s t)

-- `s.split(c, 1)`, or nothing if `c` is not in `s`
unfoldable pub split_once : ℕ → Text → Option (Text × Text)
split_once c [] = none
split_once c (d ∷ s) = elim (d == c) [
  | true ↦ some ([], s)
  | false ↦ elim (split_once c s) [ none ↦ none | some p ↦ some (d ∷ p.0, p.1) ]
]

-- `s.split(c, 1)[0]`
unfoldable pub before_first : ℕ → Text → Text
before_first c [] = []
before_first c (d ∷ s) = let rest = before_first c s in if d == c then [] else d ∷ rest

abbrev onto_first : ℕ → List Text → List Text
onto_first d [] = (d ∷ []) ∷ []
onto_first d (t ∷ ts) = (d ∷ t) ∷ ts

-- `s.split(c)`
unfoldable pub split_on : ℕ → Text → List Text
split_on c [] = [] ∷ []
split_on c (d ∷ s) = let rest = split_on c s in if d == c then [] ∷ rest else onto_first d rest

-- `str.lower` on an ASCII character
abbrev pub lower : ℕ → ℕ
lower c = if leb 65 c && leb c 90 then c + 32 else c

-- `s in {…}`
unfoldable pub is_one_of : List Text → Text → Bool
is_one_of [] s = false
is_one_of (t ∷ ts) s = text_eq s t || is_one_of ts s
