-- ===== src/Game/Rules.antt =====
-- game/rules.py
use progress_claw_machine.Shared.{
  ℕ, ℤ, ◌+ℤ◌, scale, leb, leb_ℤ, Text, codes, text_eq, starts_with, lower, lower, Bool, true, false,
  ◌&&◌, ◌||◌, is_some, Option, none, some, List, [], ◌∷◌, length, keep, any, if◌then◌else◌, map,
}
use progress_claw_machine.Controller.Machine.{Status, fault, Snapshot}
use progress_claw_machine.Vision.Detections.{DetectedObject}
use progress_claw_machine.Game.Models.{GameState, playing, error}

pub record PrizeZone : Type 0 where
  pub x_min : ℤ
  pub y_min : ℤ
  pub x_max : ℤ
  pub y_max : ℤ

-- Bounds on a mean are bounds on the sum, doubled.
abbrev mean_within : ℤ → ℤ → ℤ → ℤ → Bool
mean_within lo hi a b = leb_ℤ (scale 2 lo) (a +ℤ b) && leb_ℤ (a +ℤ b) (scale 2 hi)

unfoldable pub contains : PrizeZone → List ℤ → Bool
contains z (x0 ∷ y0 ∷ x1 ∷ y1 ∷ _) =
    mean_within z.x_min z.x_max x0 x1 && mean_within z.y_min z.y_max y0 y1
contains z _ = false

abbrev pub is_prize : DetectedObject → Bool
is_prize o = text_eq o.class_name (codes "teddy bear")

abbrev pub is_player : DetectedObject → Bool
is_player o = text_eq o.class_name (codes "person")

unfoldable pub confident_objects : List DetectedObject → ℕ → List DetectedObject
confident_objects objects threshold = keep (λ o. leb threshold o.confidence) objects

unfoldable pub count_players : List DetectedObject → ℕ → ℕ
unfolding confident_objects
count_players objects threshold = length (keep is_player (confident_objects objects threshold))

unfoldable pub prize_objects : List DetectedObject → ℕ → PrizeZone → List DetectedObject
unfolding confident_objects contains
prize_objects objects threshold zone =
    keep (λ o. is_prize o && contains zone o.bounding_box) (confident_objects objects threshold)

-- A text that is there and not empty.
abbrev pub is_true_text : Option Text → Bool
is_true_text none = false
is_true_text (some []) = false
is_true_text (some (_ ∷ _)) = true

abbrev pub is_fault : Status → Bool
is_fault fault = true
is_fault _ = false

unfoldable pub runtime_state : Snapshot → Option GameState
runtime_state s =
    if is_true_text s.state.last_error || is_fault s.state.status
    then some error
    else if s.state.emergency_stopped
    then some error
    else if s.running || is_some s.state.play_mode
    then some playing
    else none

-- `p in s`
unfoldable pub has_part : Text → Text → Bool
has_part p [] = starts_with [] p
has_part p (c ∷ s) = starts_with (c ∷ s) p || has_part p s

unfoldable pub contains_grab_event : List Text → Bool
unfolding has_part
contains_grab_event events =
    any (λ e. has_part (codes "grab") (map lower e) || has_part (codes "claw") (map lower e)) events
