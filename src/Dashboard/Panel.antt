-- ===== src/Dashboard/Panel.antt =====
-- dashboard/backend/dashboard_state.py: the credits, and the claw power that the dashboard asks for.
-- Counts that the code clamps at 0 are natural numbers; events are left out.
pub mod Credits
pub mod Power
use progress_claw_machine.Shared.{
  ℕ, ◌+◌, ◌-◌, ◌*◌, ◌/◌, ℤ, pos, pos_part, min_ℤ, max_ℤ, leb, ltb, ◌==◌, if◌then◌else◌, Bool, true,
  false,
}
use progress_claw_machine.Controller.Gpio.{round_tenth}

pub data PowerMode : Type 0 where
  manual ai : PowerMode

pub record Panel : Type 0 where
  pub people : ℕ
  pub target : ℕ
  pub credits : ℕ
  pub grabber_power_percent : ℤ
  pub manual_grabber_power_percent : ℤ
  pub grabber_power_mode : PowerMode
  pub ai_people_count : ℕ
  pub ai_grabber_power_percent : ℤ

-- `max(0, current_milestones - previous_milestones)` is the truncated subtraction.
unfoldable pub award_credits : ℕ → Panel → Panel
award_credits previous p = record p {
  credits = p.credits + (p.people / p.target - previous / p.target);
}

unfoldable pub set_people : ℤ → Panel → Panel
unfolding award_credits
set_people value p = award_credits p.people (record p { people = pos_part (max_ℤ (pos 0) value) })

-- `max(lo, min(hi, value))`
abbrev pub clamp : ℤ → ℤ → ℤ → ℤ
clamp lo hi value = max_ℤ lo (min_ℤ hi value)

unfoldable pub grabber_power_level : ℤ → ℕ
unfolding round_tenth
grabber_power_level percent =
    let x = pos_part (clamp (pos 40) (pos 100) percent) - 40 in
    pos_part (max_ℤ (pos 0) (min_ℤ (pos 6) (pos (round_tenth x))))

unfoldable pub grabber_power_of_level : ℤ → ℤ
unfolding grabber_power_level
grabber_power_of_level value = pos (40 + grabber_power_level value * 10)

unfoldable pub ai_power : ℕ → ℤ
ai_power people =
    if leb people 1
    then pos 60
    else if leb people 3
    then pos 70
    else if people == 4
    then pos 80
    else pos 90

abbrev effective : PowerMode → ℤ → ℤ → ℤ
effective ai by_ai by_hand = by_ai
effective manual by_ai by_hand = by_hand

-- `refresh_effective_grabber_power`
unfoldable pub refresh_power : Panel → Panel
unfolding ai_power
refresh_power p =
    let by_ai = ai_power p.ai_people_count in
    record p {
      ai_grabber_power_percent = by_ai;
      grabber_power_percent = effective p.grabber_power_mode by_ai p.manual_grabber_power_percent;
    }

-- `set_grabber_power_mode`, for one of the two modes
unfoldable pub set_grabber_power_mode : PowerMode → Panel → Panel
unfolding refresh_power
set_grabber_power_mode mode p = refresh_power (record p { grabber_power_mode = mode })

unfoldable pub set_ai_people_count : ℤ → Panel → Panel
unfolding refresh_power
set_ai_people_count value p =
    refresh_power (record p { ai_people_count = pos_part (clamp (pos 0) (pos 99) value) })

unfoldable pub play_duration_seconds : ℤ → ℤ
play_duration_seconds value = clamp (pos 10) (pos 180) value
