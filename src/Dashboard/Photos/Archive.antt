-- ===== src/Dashboard/Photos/Archive.antt =====
-- dashboard/backend/dashboard_state.py: the archive of photos, and the size of a scaled one.
use native.Mathlib.Nat.{div-le_of_le-mul}
use progress_claw_machine.Shared.{
  ℕ, ◌*◌, ◌/◌, ◌≤◌, ltb, ◌≡◌, ◌≢◌, refl, Text, true, Bool-cases, inl, inr, List, [], if◌then◌else◌,
  arith,
}
use progress_claw_machine.Config.Env.{Environment}
use progress_claw_machine.Dashboard.Photos.{
  Metadata, archive_enabled, archive_yolo_raw_photo, scaled,
}

scaled_side : (side larger : ℕ) → side ≤ larger → side * 960 / larger ≤ 960
scaled_side side larger h = div-le_of_le-mul larger (omega arith)

-- Both sides of the scaled photo are at most 960.
scaled_bounds :
    (width height : ℕ) → ((scaled width height).0 ≤ 960) × ((scaled width height).1 ≤ 960)
unfolding scaled
scaled_bounds width height =
    let larger = if ltb width height then height else width in
    let w = scaled_side width larger (ground arith) in
    let h = scaled_side height larger (ground arith) in ground arith

-- If anything is written for the training of the detector, the variable that asks for it is on.
archive_yolo_raw_photo_asked :
    (env : Environment) (directory timestamp : Text) (millis : ℕ) (about : Metadata)
    (frame : List ℕ)
    → (archive_yolo_raw_photo env directory timestamp millis about frame).1 ≢ []
    → archive_enabled env ≡ true
unfolding archive_yolo_raw_photo
archive_yolo_raw_photo_asked env directory timestamp millis about frame h =
    elim (Bool-cases (archive_enabled env)) [
      | inl asked ↦ asked
      | inr not_asked ↦ ground (arith, h (rw not_asked refl))
    ]
