-- ===== src/Controller/Gpio/Levels.antt =====
-- The three-bit power level.
use progress_claw_machine.Shared.{
  ℕ, ◌+◌, ◌*◌, ◌-◌, ◌≤◌, ◌≡◌, ℤ, pos, ◌≤ℤ◌, min_ℤ, max_ℤ, pos_part, arith,
}
use progress_claw_machine.Controller.Gpio.{round_tenth, power_level}

round_tenth_near : (x : ℕ) → (10 * round_tenth x ≤ x + 5) × (x ≤ 10 * round_tenth x + 5)
unfolding round_tenth
round_tenth_near x = ground arith

-- For every percent, the level is at most 6, so it is never the level 7 that asks the firmware for
-- its end pulse, and the percent that it stands for is within 5 of the percent, clamped to 40..100.
pub power_level_near :
    (percent : ℤ)
    → let clamped = max_ℤ (pos 40) (min_ℤ (pos 100) percent) in
      (power_level percent ≤ 6)
      × (pos (40 + 10 * power_level percent) ≤ℤ pos (pos_part clamped + 5))
      × (clamped ≤ℤ pos (45 + 10 * power_level percent))
unfolding power_level
power_level_near percent =
    ground (arith, round_tenth_near (pos_part (max_ℤ (pos 40) (min_ℤ (pos 100) percent)) - 40))

-- The percents of the seven levels are kept exactly.
pub power_level_exact : (level : ℕ) → level ≤ 6 → power_level (pos (40 + 10 * level)) ≡ level
unfolding power_level
power_level_exact level h = ground arith
