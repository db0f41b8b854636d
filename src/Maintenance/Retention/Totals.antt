-- ===== src/Maintenance/Retention/Totals.antt =====
-- The totals of a category against their definitions.
use mathlib.Core.Path.{subst}
use progress_claw_machine.Shared.{
  ◌≤◌, ◌*◌, pos, negsuc, sym, max_ℤ, Bool-cases, ℕ, ◌+◌, ℤ, ◌≤ℤ◌, ltb_ℤ, Text, ◌≡◌, ◌⊎◌, inl, inr,
  refl, Option, none, some, List, [], ◌∷◌, length, keep, All, arith,
}
use progress_claw_machine.Maintenance.Retention.{
  FileStatus, Entry, Tally, RetentionCategory, regular_files, cutoff, age_of, tally_file,
  rounded_days, tally, no_files, summarize_category,
}

unfoldable pub total_size : List FileStatus → ℕ
total_size [] = 0
total_size (s ∷ ss) = s.size + total_size ss

-- The files that the category keeps for too long.
abbrev pub expired : ℤ → ℕ → List FileStatus → List FileStatus
expired now days ss = keep (λ s. ltb_ℤ s.mtime (cutoff now days)) ss

tally_totals :
    (now : ℤ) (days : ℕ) (ss : List FileStatus) (t : Tally)
    → let r = tally now days ss t in
      (r.files ≡ t.files + length ss)
      × (r.bytes ≡ t.bytes + total_size ss)
      × (r.expired_files ≡ t.expired_files + length (expired now days ss))
      × (r.expired_bytes ≡ t.expired_bytes + total_size (expired now days ss))
unfolding tally tally_file total_size
tally_totals now days [] t = omega arith
tally_totals now days (s ∷ ss) t =
    ground (arith, tally_totals now days ss (tally_file now days s t))

-- It is the age of one of the files.
abbrev pub IsAge : ℤ → List FileStatus → ℤ → Type 0
IsAge now [] m = ⊥
IsAge now (s ∷ ss) m = (m ≡ age_of now s) ⊎ IsAge now ss m

-- The greatest of the ages, or none if there is no file.
abbrev pub IsOldest : ℤ → List FileStatus → Option ℤ → Type 0
IsOldest now ss none = ss ≡ []
IsOldest now ss (some m) = All (λ s. age_of now s ≤ℤ m) ss × IsAge now ss m

All-trans :
    (now m n : ℤ) (ss : List FileStatus)
    → m ≤ℤ n
    → All (λ s. age_of now s ≤ℤ m) ss
    → All (λ s. age_of now s ≤ℤ n) ss
All-trans now m n [] h k = tt
All-trans now m n (s ∷ ss) h (k, ks) = (omega arith, All-trans now m n ss h ks)

-- The loop from an oldest age that is known.
tally_oldest :
    (now : ℤ) (days : ℕ) (ss : List FileStatus) (t : Tally) (m : ℤ)
    → t.oldest_age ≡ some m
    → (n : ℤ) × ((tally now days ss t).oldest_age ≡ some n)
      × (m ≤ℤ n)
      × All (λ s. age_of now s ≤ℤ n) ss
      × ((n ≡ m) ⊎ IsAge now ss n)
unfolding tally tally_file
tally_oldest now days [] t m e = (m, e, omega arith, tt, inl refl)
tally_oldest now days (s ∷ ss) t m e =
    let (n, f, le, all, which) =
      tally_oldest now days ss (tally_file now days s t) (max_ℤ m (age_of now s)) (ground arith) in
    (
      n,
      f,
      ground arith,
      (ground arith, all),
      elim which [
        | inr later ↦ inr (inr later)
        | inl same ↦ elim (Bool-cases (ltb_ℤ m (age_of now s))) [
          | inl grown ↦ inr (inl (ground arith))
          | inr kept ↦ inl (ground arith)
        ]
      ],
    )

tally_from_none :
    (now : ℤ) (days : ℕ) (ss : List FileStatus)
    → IsOldest now ss (tally now days ss no_files).oldest_age
unfolding tally tally_file
tally_from_none now days [] = refl
tally_from_none now days (s ∷ ss) =
    let (n, f, le, all, which) =
      tally_oldest now days ss (tally_file now days s no_files) (age_of now s) refl in
    let seen : IsAge now (s ∷ ss) n = elim which [ inl same ↦ inl same | inr later ↦ inr later ] in
    let proof : IsOldest now (s ∷ ss) (some n) = ((le, all), seen) in
    subst (IsOldest now (s ∷ ss)) (sym f) proof

-- The regular files of a category's directory, `.gitkeep` left out.
abbrev pub files_of : (Text → Option (List Entry)) → RetentionCategory → List FileStatus
files_of directory c = elim (directory c.relative_path) [ none ↦ [] | some es ↦ regular_files es ]

-- An age in milliseconds and the nearest hundredth of a day.
abbrev pub IsNear : Option ℤ → Option ℕ → Type 0
IsNear none none = Unit {0}
IsNear (some (pos age)) (some d) = (864000 * d ≤ age + 432000) × (age ≤ 864000 * d + 432000)
IsNear (some (negsuc n)) (some d) = d ≡ 0
IsNear _ _ = ⊥

rounded_days-IsNear : (m : Option ℤ) → IsNear m (rounded_days m)
unfolding rounded_days
rounded_days-IsNear none = tt
rounded_days-IsNear (some (pos age)) = (omega arith, omega arith)
rounded_days-IsNear (some (negsuc n)) = refl

-- The summary of a category counts its regular files and their bytes, and those of them that were
-- last changed before the cutoff, with their bytes; its oldest age is the greatest age of a file, to the
-- nearest hundredth of a day, and there is none exactly if there is no file.
pub summarize_category_totals :
    (now : ℤ) (directory : Text → Option (List Entry)) (c : RetentionCategory)
    → let ss = files_of directory c in
      let old = expired now c.retention_days ss in
      let r = summarize_category now directory c in
      (r.files ≡ length ss)
      × (r.bytes ≡ total_size ss)
      × (r.expired_files ≡ length old)
      × (r.expired_bytes ≡ total_size old)
      × ((m : Option ℤ) × IsOldest now ss m × IsNear m r.oldest_age_days)
unfolding summarize_category
summarize_category_totals now directory c =
    let ss = files_of directory c in
    let (files, bytes, old, old_bytes) = tally_totals now c.retention_days ss no_files in
    let t = tally now c.retention_days ss no_files in
    let oldest = tally_from_none now c.retention_days ss in
    (
      omega arith,
      omega arith,
      omega arith,
      omega arith,
      (t.oldest_age, oldest, rounded_days-IsNear t.oldest_age),
    )
