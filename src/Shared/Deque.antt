-- ===== src/Shared/Deque.antt =====
-- `collections.deque` with a bound: `appendleft` drops the last items that are over it.
use progress_claw_machine.Shared.{
  ℕ, zero, suc, ◌≤◌, ◌≡◌, refl, ap, List, [], ◌∷◌, length, take, length-take, arith,
}

module _ {ℓ} {A : Type ℓ} where
  unfoldable pub append_left : ℕ → A → List A → List A
  append_left bound x xs = take bound (x ∷ xs)

  pub length-append_left : (n : ℕ) (x : A) (xs : List A) → length (append_left n x xs) ≤ n
  unfolding append_left
  length-append_left n x xs = omega (arith, length-take n (x ∷ xs))

  take_shorter : (n : ℕ) (xs : List A) → take n (take (suc n) xs) ≡ take n xs
  take_shorter zero xs = refl
  take_shorter (suc n) [] = refl
  take_shorter (suc n) (x ∷ xs) = ap (λ ys. x ∷ ys) (take_shorter n xs)

  -- A bounded deque that holds the newest items of a whole history goes on doing so.
  pub append_left-take :
      (n : ℕ) (x : A) (xs : List A) → append_left n x (take n xs) ≡ take n (x ∷ xs)
  unfolding append_left
  append_left-take zero x xs = refl
  append_left-take (suc n) x xs = ap (λ ys. x ∷ ys) (take_shorter n xs)
