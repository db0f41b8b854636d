-- ===== src/Dashboard/Panel/Credits.antt =====
-- The credits that a row of people counts earns.
use progress_claw_machine.Shared.{ℕ, ◌+◌, ◌-◌, ◌/◌, ◌≤◌, pos, ◌≡◌, refl, ◌∙◌, List, [], ◌∷◌, arith}
use progress_claw_machine.Dashboard.Panel.{Panel, set_people}

-- The counts are set one after another.
pub count_all : List ℕ → Panel → Panel
count_all [] p = p
count_all (n ∷ ns) p = count_all ns (set_people (pos n) p)

-- The counts do not fall, from `n` on.
abbrev pub Rises : ℕ → List ℕ → Type 0
Rises n [] = Unit {0}
Rises n (m ∷ ms) = (n ≤ m) × Rises m ms

set_people_credits :
    (n : ℕ) (p : Panel)
    → let q = set_people (pos n) p in
      (q.people ≡ n)
      × (q.target ≡ p.target)
      × (q.credits ≡ p.credits + (n / p.target - p.people / p.target))
unfolding set_people
set_people_credits n p = ground arith

div_mono : (a b t : ℕ) → a ≤ b → a / t ≤ b / t
div_mono a b t h = grind arith

-- The last of a row of counts, or `n`.
pub last_count : ℕ → List ℕ → ℕ
last_count n [] = n
last_count n (m ∷ ms) = last_count m ms

credits-count_from :
    (k t : ℕ) (ns : List ℕ) (p : Panel)
    → p.people ≡ k
    → p.target ≡ t
    → Rises k ns
    → (count_all ns p).credits + k / t ≡ p.credits + last_count k ns / t
unfolding count_all last_count
credits-count_from k t [] p e f h = refl
credits-count_from k t (n ∷ ns) p e f h =
    let (people, target, credits) = set_people_credits n p in
    let rest = credits-count_from n t ns (set_people (pos n) p) people (target ∙ f) h.1 in
    let earned : (set_people (pos n) p).credits ≡ p.credits + (n / t - k / t) =
      rw (← e, ← f) credits in
    omega (arith, rest, earned, div_mono k n t h.0)

-- Counts that do not fall earn what one step from the first to the last would: the milestones of the
-- target that lie between them, however they are reached.
credits-count_all :
    (ns : List ℕ) (p : Panel)
    → Rises p.people ns
    → (count_all ns p).credits + p.people / p.target ≡ p.credits + last_count p.people ns / p.target
credits-count_all ns p h = credits-count_from p.people p.target ns p refl refl h
