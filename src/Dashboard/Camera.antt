-- ===== src/Dashboard/Camera.antt =====
-- dashboard/backend/dashboard_state.py, `camera_worker`: how JPEG frames are cut out of the bytes that
-- a camera process writes. The processes are outside; a chunk is what one `read` gave.
pub mod Chunks
use progress_claw_machine.Shared.{
  ℕ, zero, suc, ◌+◌, ◌*◌, ◌-◌, ltb, ◌==◌, ◌&&◌, Option, none, some, List, [], ◌∷◌, ◌++◌, length,
  take, if◌then◌else◌,
}

abbrev pub drop : ℕ → List ℕ → List ℕ
drop zero s = s
drop (suc n) [] = []
drop (suc n) (c ∷ s) = drop n s

abbrev after_next : Option ℕ → Option ℕ
after_next none = none
after_next (some i) = some (suc i)

-- `s.find(bytes([x, y]))`, or nothing for -1
unfoldable pub find : ℕ → ℕ → List ℕ → Option ℕ
find x y [] = none
find x y (c ∷ []) = none
find x y (c ∷ d ∷ s) =
    let rest = after_next (find x y (d ∷ s)) in if c == x && d == y then some 0 else rest

-- `s.find(bytes([x, y]), k)`
abbrev pub find_from : ℕ → ℕ → ℕ → List ℕ → Option ℕ
find_from x y k s = elim (find x y (drop k s)) [ none ↦ none | some i ↦ some (k + i) ]

-- The frame between the first start marker and the first end marker after it, and the rest.
unfoldable pub cut : List ℕ → Option (List ℕ × List ℕ)
cut s = elim (find 255 216 s) [
  | none ↦ none
  | some start ↦ elim (find_from 255 217 (start + 2) s) [
    | none ↦ none
    | some end_at ↦ some (drop start (take (end_at + 2) s), drop (end_at + 2) s)
  ]
]

-- The inner loop, on fuel: the frames in the order in which they are published, and the buffer.
unfoldable pub extract : ℕ → List ℕ → List (List ℕ) × List ℕ
extract zero s = ([], s)
extract (suc n) s = elim (cut s) [
  | none ↦ ([], s)
  | some p ↦ let (fs, r) = extract n p.1 in (p.0 ∷ fs, r)
]

abbrev pub max_buffer : ℕ
max_buffer = 4 * 1024 * 1024

-- `del buffer[:-2]` if the buffer is too long
unfoldable pub trim : List ℕ → List ℕ
trim s = if ltb max_buffer (length s) then drop (length s - 2) s else s

-- One chunk.
unfoldable pub feed : List ℕ → List ℕ → List (List ℕ) × List ℕ
unfolding trim
feed chunk buffer =
    let s = buffer ++ chunk in let (fs, r) = extract (suc (length s)) s in (fs, trim r)

-- All chunks, one after another.
unfoldable pub feed_all : List (List ℕ) → List ℕ → List (List ℕ) × List ℕ
feed_all [] buffer = ([], buffer)
feed_all (chunk ∷ chunks) buffer =
    let (fs, r) = feed chunk buffer in let (gs, q) = feed_all chunks r in (fs ++ gs, q)
