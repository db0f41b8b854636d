-- ===== src/Maintenance/Retention.antt =====
-- scripts/maintenance/audit_data_retention.py. Times are in milliseconds, and the oldest age of a
-- summary is in hundredths of a day. A directory is what `rglob` yields, each
-- entry with its `lstat`, or none if that raises.
pub mod Totals
use progress_claw_machine.Shared.{
  ℕ, ◌+◌, ◌/◌, ℤ, pos, negsuc, ◌-ℤ◌, scale, max_ℤ, ltb_ℤ, Text, codes, text_eq, Bool, true, false,
  not, ◌&&◌, Option, none, some, List, [], ◌∷◌, map, if◌then◌else◌,
}

pub record RetentionCategory : Type 0 where
  pub name : Text
  pub relative_path : Text
  pub retention_days : ℕ

pub record RetentionSummary : Type 0 where
  pub name : Text
  pub path : Text
  pub retention_days : ℕ
  pub files : ℕ
  pub bytes : ℕ
  pub expired_files : ℕ
  pub expired_bytes : ℕ
  pub oldest_age_days : Option ℕ

abbrev pub category : Text → Text → ℕ → RetentionCategory
category name path days = record { name = name; relative_path = path; retention_days = days }

abbrev pub categories : List RetentionCategory
categories =
    category (codes "player_history") (codes "dashboard/assets/static/images/players") 7
    ∷ category (codes "raw_training_captures") (codes "ai/training/yolo_people/raw_photos") 30
    ∷ category (codes "training_runs") (codes "ai/training/yolo_people/runs") 30
    ∷ category (codes "runtime_logs") (codes "logs") 14
    ∷ []

-- What `lstat` tells.
pub record FileStatus : Type 0 where
  pub is_regular : Bool
  pub size : ℕ
  pub mtime : ℤ

pub record Entry : Type 0 where
  pub name : Text
  pub status : Option FileStatus

-- The statuses that `_regular_files` yields.
unfoldable pub regular_files : List Entry → List FileStatus
regular_files [] = []
regular_files (e ∷ es) =
    let rest = regular_files es in
    elim e.status [
      | none ↦ rest
      | some s ↦ if s.is_regular && not (text_eq e.name (codes ".gitkeep")) then s ∷ rest else rest
    ]

-- The variables of the loop of `summarize_category`.
pub record Tally : Type 0 where
  pub files : ℕ
  pub bytes : ℕ
  pub expired_files : ℕ
  pub expired_bytes : ℕ
  pub oldest_age : Option ℤ

abbrev pub older : Option ℤ → ℤ → ℤ
older none age = age
older (some oldest) age = max_ℤ oldest age

abbrev pub day : ℕ
day = 86400000

-- `current_time - category.retention_days * 86400`
abbrev pub cutoff : ℤ → ℕ → ℤ
cutoff now days = now -ℤ scale day (pos days)

abbrev pub age_of : ℤ → FileStatus → ℤ
age_of now s = max_ℤ (pos 0) (now -ℤ s.mtime)

-- The body of the loop.
unfoldable pub tally_file : ℤ → ℕ → FileStatus → Tally → Tally
tally_file now days s t =
    let expired = ltb_ℤ s.mtime (cutoff now days) in
    record {
      files = t.files + 1;
      bytes = t.bytes + s.size;
      expired_files = if expired then t.expired_files + 1 else t.expired_files;
      expired_bytes = if expired then t.expired_bytes + s.size else t.expired_bytes;
      oldest_age = some (older t.oldest_age (age_of now s));
    }

unfoldable pub tally : ℤ → ℕ → List FileStatus → Tally → Tally
tally now days [] t = t
tally now days (s ∷ ss) t = tally now days ss (tally_file now days s t)

abbrev pub no_files : Tally
no_files = record { files = 0; bytes = 0; expired_files = 0; expired_bytes = 0; oldest_age = none }

-- `round(oldest_age_days, 2)`: the nearest hundredth of a day. A half goes up here; the float in its
-- place lies beside the half, on either side.
unfoldable pub rounded_days : Option ℤ → Option ℕ
rounded_days none = none
rounded_days (some (pos age)) = some ((age + 432000) / 864000)
rounded_days (some (negsuc n)) = some 0

-- The directory of the category, or none if there is no such directory.
unfoldable pub summarize_category :
    ℤ → (Text → Option (List Entry)) → RetentionCategory → RetentionSummary
summarize_category now directory c =
    let found = elim (directory c.relative_path) as (λ _. List FileStatus) [
      | none ↦ []
      | some es ↦ regular_files es
    ] in
    let t = tally now c.retention_days found no_files in
    record {
      name = c.name;
      path = c.relative_path;
      retention_days = c.retention_days;
      files = t.files;
      bytes = t.bytes;
      expired_files = t.expired_files;
      expired_bytes = t.expired_bytes;
      oldest_age_days = rounded_days t.oldest_age;
    }

unfoldable pub audit : ℤ → (Text → Option (List Entry)) → List RetentionSummary
audit now directory = map (summarize_category now directory) categories
