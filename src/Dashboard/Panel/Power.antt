-- ===== src/Dashboard/Panel/Power.antt =====
-- The claw power that the dashboard asks for.
use progress_claw_machine.Shared.{ℤ, pos, ◌≤ℤ◌, ◌≡◌, refl, arith}
use progress_claw_machine.Controller.Gpio.{power_level}
use progress_claw_machine.Dashboard.Panel.{
  Panel, PowerMode, set_grabber_power_mode, set_ai_people_count, grabber_power_level,
}

-- The dashboard and the GPIO adapter compute the same power level from every percent.
pub grabber_power_level-power_level :
    (percent : ℤ) → grabber_power_level percent ≡ power_level percent
unfolding grabber_power_level power_level
grabber_power_level-power_level percent = refl

-- The power asked for is one that the controller accepts, 40 to 100 percent.
abbrev pub IsPower : ℤ → Type 0
IsPower n = (pos 40 ≤ℤ n) × (n ≤ℤ pos 100)

-- In both modes, and after any change of the mode or of the counted people, the power that the
-- dashboard asks for is one that the controller accepts, if the power set by hand is.
pub set_grabber_power_mode-IsPower :
    (mode : PowerMode) (people : ℤ) (p : Panel)
    → IsPower p.manual_grabber_power_percent
    → IsPower (set_grabber_power_mode mode p).grabber_power_percent
      × IsPower (set_ai_people_count people p).grabber_power_percent
unfolding set_grabber_power_mode set_ai_people_count
set_grabber_power_mode-IsPower mode people p h = ground arith
