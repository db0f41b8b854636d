-- ===== src/Vision/Capture/Health.antt =====
-- What the manager's health says after a round of capturing.
use progress_claw_machine.Shared.{
  ℕ, ◌+◌, if◌then◌else◌, ◌≡◌, ◌∙◌, refl, ℤ, codes, true, false, none, some, List, [], ◌∷◌, arith,
}
use mathlib.Core.Path.{subst}
use progress_claw_machine.Vision.Frames
use progress_claw_machine.Vision.Capture.{
  connected, disconnected, CameraManager, Opening, opens, fails_to_open, factory_raises, Reading,
  stop_seen, read_failed, raises, frame_read, LoopEnd, stopped, lost, going_on, broke,
  mark_disconnected, release_capture, take_frame, read_loop, open_capture, after_loop, run_round,
}

-- The frames before the loop ends.
unfoldable pub frames_read : List Reading → ℕ
frames_read [] = 0
frames_read (frame_read _ _ _ ∷ rs) = frames_read rs + 1
frames_read (_ ∷ rs) = 0

-- What an end of the loop leaves: a lost camera shows as disconnected with its error.
abbrev pub Shows : LoopEnd → CameraManager → Type 0
Shows stopped m = (m.status ≡ connected) × (m.last_error ≡ none)
Shows lost m =
    (m.status ≡ disconnected) × (m.fps ≡ 0) × (m.last_error ≡ some (codes "Camera read failed"))
Shows going_on m = (m.status ≡ connected) × (m.last_error ≡ none)
Shows (broke e) m = (m.status ≡ connected) × (m.last_error ≡ none)

take_frame_shows :
    (bytes : List ℕ) (at : ℤ) (elapsed count : ℕ) (m : CameraManager)
    → let t = (take_frame bytes at elapsed count m).0 in
      (t.status ≡ m.status)
      × (t.has_capture ≡ m.has_capture)
      × (t.releases ≡ m.releases)
      × (t.last_error ≡ m.last_error)
      × (t.frame_queue.sequence ≡ m.frame_queue.sequence + 1)
unfolding take_frame Frames.put
take_frame_shows bytes at elapsed count m = ground arith

read_loop-Shows :
    (rs : List Reading) (count : ℕ) (m : CameraManager)
    → m.status ≡ connected
    → m.last_error ≡ none
    → m.has_capture ≡ true
    → let (end, t) = read_loop rs count m in
      Shows end t
      × (t.has_capture ≡ true)
      × (t.releases ≡ m.releases)
      × (t.frame_queue.sequence ≡ m.frame_queue.sequence + frames_read rs)
unfolding read_loop mark_disconnected frames_read
read_loop-Shows [] count m on fine holds = ((on, fine), holds, refl, omega arith)
read_loop-Shows (stop_seen ∷ rs) count m on fine holds = ((on, fine), holds, refl, omega arith)
read_loop-Shows (read_failed ∷ rs) count m on fine holds =
    ((refl, refl, refl), holds, refl, omega arith)
read_loop-Shows (raises e ∷ rs) count m on fine holds = ((on, fine), holds, refl, omega arith)
read_loop-Shows (frame_read bytes at elapsed ∷ rs) count m on fine holds =
    let (t, n) = take_frame bytes at elapsed count m in
    let (same, held, kept, errors, counted) = take_frame_shows bytes at elapsed count m in
    let (shows, still, releases, more) =
      read_loop-Shows rs n t (same ∙ on) (errors ∙ fine) (held ∙ holds) in
    (shows, still, releases ∙ kept, omega arith)

-- What a round leaves when it has ended, with the calls of `release` so far.
abbrev pub Leaves : ℕ → LoopEnd → CameraManager → Type 0
Leaves n going_on m = Unit {0}
Leaves n stopped m = (m.status ≡ connected) × (m.has_capture ≡ false) × (m.releases ≡ n)
Leaves n lost m =
    (m.status ≡ disconnected)
    × (m.fps ≡ 0)
    × (m.last_error ≡ some (codes "Camera read failed"))
    × (m.has_capture ≡ false)
    × (m.releases ≡ n)
Leaves n (broke e) m =
    (m.status ≡ disconnected)
    × (m.fps ≡ 0)
    × (m.last_error ≡ some e)
    × (m.has_capture ≡ false)
    × (m.releases ≡ n)

after_loop-Leaves :
    (end : LoopEnd) (m : CameraManager)
    → Shows end m
    → m.has_capture ≡ true
    → let (e, t) = after_loop (end, m) in
      Leaves (m.releases + 1) e t × (t.frame_queue.sequence ≡ m.frame_queue.sequence)
unfolding mark_disconnected release_capture
after_loop-Leaves going_on m h holds = (tt, refl)
after_loop-Leaves stopped m h holds = ground arith
after_loop-Leaves lost m h holds = ground arith
after_loop-Leaves (broke e) m h holds = ground arith

abbrev pub read_in : Opening → List Reading → ℕ
read_in opens rs = frames_read rs
read_in _ rs = 0

-- How many captures a round has to release: the one that the factory made, or, if the factory raises,
-- the one that was there before.
abbrev pub to_release : Opening → CameraManager → ℕ
to_release (factory_raises e) m = if m.has_capture then 1 else 0
to_release _ m = 1

-- However a round of the capture thread ends, the manager has no capture left, and it has called
-- `release` exactly once if the factory made a capture in the round. If the camera could not be opened,
-- was lost, or a call raised, the health shows it as disconnected, with no frame rate and with the
-- error; if the flag ended the round, it still shows as connected. Every frame that was read got the
-- next number of the queue.
pub run_round_health :
    (opening : Opening) (rs : List Reading) (m : CameraManager)
    → let (end, t) = run_round opening rs m in
      Leaves (m.releases + to_release opening m) end t
      × (t.frame_queue.sequence ≡ m.frame_queue.sequence + read_in opening rs)
unfolding run_round open_capture mark_disconnected release_capture
run_round_health opens rs m =
    let t : CameraManager = record m {
      has_capture = true;
      status = connected;
      last_error = none;
    } in
    let (shows, still, same_releases, counted) = read_loop-Shows rs 0 t refl refl refl in
    let (end, u) = read_loop rs 0 t in
    let (leaves, same) = after_loop-Leaves end u shows still in
    (
      subst (λ n. Leaves (n + 1) (after_loop (end, u)).0 (after_loop (end, u)).1) same_releases
          leaves,
      same ∙ counted,
    )
run_round_health fails_to_open rs m = ((refl, refl, refl, refl, refl), omega arith)
run_round_health (factory_raises e) rs m = ground arith
