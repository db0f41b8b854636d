-- ===== src/Analytics/Store/Keys.antt =====
-- Lists of keys, of which the last one is dropped, and sets of keys.
use progress_claw_machine.Shared.{
  ℕ, zero, suc, ◌≤◌, ◌≡◌, ◌∙◌, sym, ap, refl, Text, text_eq, text_eq_refl, text_eq_sound, Bool,
  true, false, not, ◌&&◌, ◌||◌, Option, none, some, List, [], ◌∷◌, length, take, arith,
}
use progress_claw_machine.Analytics.Store.{holds, last_key, discard}

-- The text is the key; an empty key is none.
abbrev pub is_key : Text → Option Text → Bool
is_key t none = false
is_key t (some []) = false
is_key t (some (c ∷ k)) = text_eq (c ∷ k) t

-- One of the keys is the text.
unfoldable pub has_key : Text → List (Option Text) → Bool
has_key t [] = false
has_key t (k ∷ ks) = is_key t k || has_key t ks

-- No two of the keys are the same.
unfoldable pub IsDistinct : List (Option Text) → Type 0
IsDistinct [] = Unit {0}
IsDistinct (k ∷ ks) = ((t : Text) → is_key t k ≡ true → has_key t ks ≡ false) × IsDistinct ks

unfoldable pub but_last : List (Option Text) → List (Option Text)
but_last [] = []
but_last (k ∷ []) = []
but_last (k ∷ j ∷ ks) = k ∷ but_last (j ∷ ks)

pub take_all : (n : ℕ) (ks : List (Option Text)) → length ks ≤ n → take n ks ≡ ks
take_all zero [] h = refl
take_all zero (k ∷ ks) h = absurd (omega arith)
take_all (suc n) [] h = refl
take_all (suc n) (k ∷ ks) h = ap (λ js. k ∷ js) (take_all n ks (omega arith))

pub take-but_last : (n : ℕ) (ks : List (Option Text)) → suc n ≡ length ks → take n ks ≡ but_last ks
unfolding but_last
take-but_last n [] h = absurd (omega arith)
take-but_last zero (k ∷ []) h = refl
take-but_last (suc n) (k ∷ []) h = absurd (omega arith)
take-but_last zero (k ∷ j ∷ ks) h = absurd (omega arith)
take-but_last (suc n) (k ∷ j ∷ ks) h = ap (λ js. k ∷ js) (take-but_last n (j ∷ ks) (omega arith))

has_key-last_key :
    (t : Text) (ks : List (Option Text)) → is_key t (last_key ks) ≡ true → has_key t ks ≡ true
unfolding has_key last_key
has_key-last_key t [] h = cc
has_key-last_key t (k ∷ []) h = ground arith
has_key-last_key t (k ∷ j ∷ ks) h = let e = has_key-last_key t (j ∷ ks) h in ground arith

-- Of distinct keys, without the last one.
pub has_key-but_last :
    (t : Text) (ks : List (Option Text))
    → IsDistinct ks
    → has_key t (but_last ks) ≡ (has_key t ks && not (is_key t (last_key ks)))
unfolding has_key last_key but_last IsDistinct
has_key-but_last t [] d = refl
has_key-but_last t (k ∷ []) d = ground arith
has_key-but_last t (k ∷ j ∷ ks) (apart, d) =
    let e = has_key-but_last t (j ∷ ks) d in
    let l = has_key-last_key t (j ∷ ks) in let a = apart t in ground arith

pub but_last-IsDistinct : (ks : List (Option Text)) → IsDistinct ks → IsDistinct (but_last ks)
unfolding but_last IsDistinct
but_last-IsDistinct [] d = tt
but_last-IsDistinct (k ∷ []) d = tt
but_last-IsDistinct (k ∷ j ∷ ks) (apart, d) = (
  λ t h.
      has_key-but_last t (j ∷ ks) d ∙ ap (λ b. b && not (is_key t (last_key (j ∷ ks)))) (apart t h),
  but_last-IsDistinct (j ∷ ks) d,
)

-- The two texts that are equal to a third are equal.
text_eq_both : (s t u : Text) → text_eq s u ≡ true → text_eq t u ≡ true → text_eq s t ≡ true
text_eq_both s t u h k =
    ap (λ x. text_eq s x) (text_eq_sound t u k ∙ sym (text_eq_sound s u h)) ∙ text_eq_refl s

text_eq_same : (s t u : Text) → text_eq s t ≡ true → text_eq s u ≡ text_eq t u
text_eq_same s t u h = ap (λ x. text_eq x u) (text_eq_sound s t h)

holds-discard :
    (k t : Text) (keys : List Text)
    → holds (discard (some k) keys) t ≡ (holds keys t && not (text_eq k t))
unfolding holds discard
holds-discard k t [] = refl
holds-discard k t (j ∷ keys) =
    let e = holds-discard k t keys in
    let f = text_eq_same j k t in let g = text_eq_both j k t in ground arith

pub has_key-nil : (ks : List (Option Text)) → has_key [] ks ≡ false
unfolding has_key text_eq
has_key-nil [] = refl
has_key-nil (none ∷ ks) = has_key-nil ks
has_key-nil (some [] ∷ ks) = has_key-nil ks
has_key-nil (some (c ∷ k) ∷ ks) = has_key-nil ks

-- What is left of the set when the last key is dropped.
pub holds-last_key :
    (k : Option Text) (keys : List Text) (t : Text)
    → holds keys [] ≡ false
    → holds (discard k keys) t ≡ (holds keys t && not (is_key t k))
unfolding discard text_eq
holds-last_key none keys t h = ground arith
holds-last_key (some []) keys [] h = holds-discard [] [] keys ∙ rw h refl
holds-last_key (some []) keys (c ∷ t) h = holds-discard [] (c ∷ t) keys
holds-last_key (some (c ∷ k)) keys t h = holds-discard (c ∷ k) t keys
