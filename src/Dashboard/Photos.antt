-- ===== src/Dashboard/Photos.antt =====
-- dashboard/backend/dashboard_state.py: what is done with a player's photo beside the player's entry, and
-- the stream of the dashboard's camera. OpenCV's people detector is an argument, with what it gives for a
-- photo: weights in units of 0.01. A file is written as its path and what it holds.
pub mod Archive
use progress_claw_machine.Shared.{
  ℕ, ◌+◌, ◌*◌, ◌/◌, ◌==◌, ltb, leb_ℤ, ℤ, pos, Text, codes, strip, Bool, true, false, Option, none,
  some, List, [], ◌∷◌, ◌++◌, length, keep, if◌then◌else◌,
}
use progress_claw_machine.Shared.Decimal.{show_ℕ}
use progress_claw_machine.Config.Env.{Environment, get_env, is_on}

-- The metadata of a photo. The fixed entries are left out: `label_class`, `label_status` and `notes`.
pub record Metadata : Type 0 where
  pub captured_at : Text
  pub source : Text
  pub ai_people_count : Option ℕ

pub data Content : Type 0 where
  photo : List ℕ → Content
  metadata : Metadata → Content

abbrev pub Writes : Type 0
Writes = List (Text × Content)

-- `YOLO_RAW_PHOTO_ARCHIVE_ENABLED`
unfoldable pub archive_enabled : Environment → Bool
archive_enabled env =
    is_on (strip (get_env env (codes "CLAW_YOLO_ARCHIVE_PLAYER_PHOTOS") (codes "0")))

abbrev base_name : Text → ℕ → Text
base_name timestamp millis = timestamp ++ codes "-capture-" ++ show_ℕ millis

-- `save_yolo_raw_photo`: the path of the photo, and what is written. `timestamp` and `captured_at` are
-- the texts of the moment of the photo, `millis` is the clock's reading.
unfoldable pub save_yolo_raw_photo : Text → Text → ℕ → Metadata → List ℕ → Text × Writes
save_yolo_raw_photo directory timestamp millis about frame =
    let path = directory ++ codes "/" ++ base_name timestamp millis in
    (
      path ++ codes ".jpg",
      (path ++ codes ".jpg", photo frame) ∷ (path ++ codes ".json", metadata about) ∷ [],
    )

-- `archive_yolo_raw_photo`
unfoldable pub archive_yolo_raw_photo :
    Environment → Text → Text → ℕ → Metadata → List ℕ → Option Text × Writes
unfolding archive_enabled save_yolo_raw_photo
archive_yolo_raw_photo env directory timestamp millis about frame =
    if archive_enabled env
    then (let (path, writes) = save_yolo_raw_photo directory timestamp millis about frame in
        (some path, writes))
    else (none, [])

-- The size to which a photo is scaled before people are counted in it, with the fractions cut off.
unfoldable pub scaled : ℕ → ℕ → ℕ × ℕ
scaled width height =
    let larger = if ltb width height then height else width in
    if ltb 960 larger then (width * 960 / larger, height * 960 / larger) else (width, height)

-- `count_people_in_photo`: none without OpenCV or if the photo cannot be decoded.
unfoldable pub count_people_in_photo :
    Bool → (List ℕ → Option (ℕ × ℕ)) → (List ℕ → ℕ × ℕ → List ℤ) → List ℕ → Option ℕ
unfolding scaled
count_people_in_photo has_opencv decode detect frame =
    if has_opencv
    then elim (decode frame) [
      | none ↦ none
      | some size ↦
          some (length (keep (λ w. leb_ℤ (pos 35) w) (detect frame (scaled size.0 size.1))))
    ]
    else none

-- `camera_stream`, over what its waits end with: the camera's frame, by a number that tells one object
-- from another. The frames that are yielded, without the part around them.
abbrev is_previous : Option ℕ → ℕ → Bool
is_previous none i = false
is_previous (some j) i = i == j

unfoldable pub camera_stream : List (Option (ℕ × List ℕ)) → Option ℕ → List (List ℕ)
camera_stream [] previous = []
camera_stream (none ∷ waits) previous = camera_stream waits previous
camera_stream (some (i, frame) ∷ waits) previous =
    let same = camera_stream waits previous in
    let other = camera_stream waits (some i) in
    if is_previous previous i then same else frame ∷ other
