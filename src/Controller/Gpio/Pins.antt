-- ===== src/Controller/Gpio/Pins.antt =====
-- What a command leaves on the four pins, for outputs that do what gpiozero documents.
use mathlib.Core.Path.{subst}
use progress_claw_machine.Shared.{
  ℕ, ◌+◌, ◌≡◌, ◌≢◌, refl, sym, ap, ◌∙◌, ℤ, Text, Bool, true, false, some, List, [], ◌∷◌, arith,
}
use progress_claw_machine.Shared.Action.{Result, ok, pure, ◌>>◌}
use progress_claw_machine.Controller.Adapter.{
  ArduinoResponse, power_line, start_line, stop_line, emergency_line,
}
use progress_claw_machine.Controller.Gpio.{
  Call, Devices, Gpio, level_bit, power_level, switch, drive, set_levels, set_power_level, start_on,
  start_off, send_command,
}
use progress_claw_machine.Controller.Gpio.Lines.{IsLive, finish, send_power, send_start, send_stops}

-- `OutputDevice.on` and `off` that do not raise make the device active or not, and leave every
-- other device as it is, also when they raise.
pub record DeviceLaws (d : Devices) : Type 0 where
  pub active : d.Output → d.World → Bool
  pub on_active : (o : d.Output) (w : d.World) → (d.on o w).0 ≡ ok tt → active o (d.on o w).1 ≡ true
  pub off_active :
      (o : d.Output) (w : d.World) → (d.off o w).0 ≡ ok tt → active o (d.off o w).1 ≡ false
  pub on_frame : (o p : d.Output) (w : d.World) → o ≢ p → active p (d.on o w).1 ≡ active p w
  pub off_frame : (o p : d.Output) (w : d.World) → o ≢ p → active p (d.off o w).1 ≡ active p w

-- The adapter has the gate `s` and the power outputs `a`, `b` and `c`, four different ones.
pub record HasPins {d : Devices} (g : Gpio d) (s a b c : d.Output) : Type 0 where
  pub gate : g.start_output ≡ some s
  pub powers : g.power_outputs ≡ a ∷ b ∷ c ∷ []
  pub a≢b : a ≢ b
  pub a≢c : a ≢ c
  pub b≢c : b ≢ c
  pub s≢a : s ≢ a
  pub s≢b : s ≢ b
  pub s≢c : s ≢ c

module _ (d : Devices) (l : DeviceLaws d) where
  switch_active :
      (v : Bool) (o : d.Output) (w : d.World)
      → (switch d v o w).0 ≡ ok tt
      → l.active o (switch d v o w).1 ≡ v
  unfolding switch
  switch_active true o w h = l.on_active o w h
  switch_active false o w h = l.off_active o w h

  switch_frame :
      (v : Bool) (o p : d.Output) (w : d.World)
      → o ≢ p
      → l.active p (switch d v o w).1 ≡ l.active p w
  unfolding switch
  switch_frame true o p w h = l.on_frame o p w h
  switch_frame false o p w h = l.off_frame o p w h

  -- The pins of an adapter, gate first.
  abbrev pub pins : d.Output → d.Output → d.Output → d.Output → Gpio d → Bool × Bool × Bool × Bool
  pins s a b c g = (l.active s g.world, l.active a g.world, l.active b g.world, l.active c g.world)

  set_levels_three :
      (k : ℕ) (g : Gpio d) (s a b c : d.Output)
      → HasPins g s a b c
      → (set_levels d k 0 (a ∷ b ∷ c ∷ []) g).0 ≡ ok tt
      → pins s a b c (set_levels d k 0 (a ∷ b ∷ c ∷ []) g).1
        ≡ (l.active s g.world, level_bit k 0, level_bit k 1, level_bit k 2)
  unfolding set_levels
  set_levels_three k g s a b c p h =
      let w1 = (switch d (level_bit k 0) a g.world).1 in
      let w2 = (switch d (level_bit k 1) b w1).1 in
      let w3 = (switch d (level_bit k 2) c w2).1 in
      ground (
        arith,
        switch_active (level_bit k 0) a g.world,
        switch_active (level_bit k 1) b w1,
        switch_active (level_bit k 2) c w2,
        switch_frame (level_bit k 1) b a w1,
        switch_frame (level_bit k 2) c a w2,
        switch_frame (level_bit k 2) c b w2,
        switch_frame (level_bit k 0) a s g.world,
        switch_frame (level_bit k 1) b s w1,
        switch_frame (level_bit k 2) c s w2,
      )

  set_power_level_powers :
      (k : ℕ) (g : Gpio d) (os : List d.Output)
      → g.power_outputs ≡ os
      → set_power_level d k g ≡ set_levels d k 0 os g
  unfolding set_power_level
  set_power_level_powers k g os e = ap (λ os. set_levels d k 0 os g) e

  set_power_level_three :
      (k : ℕ) (g : Gpio d) (s a b c : d.Output)
      → HasPins g s a b c
      → (set_power_level d k g).0 ≡ ok tt
      → pins s a b c (set_power_level d k g).1
        ≡ (l.active s g.world, level_bit k 0, level_bit k 1, level_bit k 2)
  set_power_level_three k g s a b c p =
      subst
        (λ (m : Result Text (Unit {0}) × Gpio d).
          m.0 ≡ ok tt
          → pins s a b c m.1 ≡ (l.active s g.world, level_bit k 0, level_bit k 1, level_bit k 2))
        (sym (set_power_level_powers k g (a ∷ b ∷ c ∷ []) p.powers))
        (set_levels_three k g s a b c p)

  -- The gate on, and the power pins as they were.
  pins-start_on :
      (g : Gpio d) (s a b c : d.Output)
      → HasPins g s a b c
      → (start_on d g).0 ≡ ok tt
      → pins s a b c (start_on d g).1
        ≡ (true, l.active a g.world, l.active b g.world, l.active c g.world)
  unfolding start_on
  pins-start_on g s a b c p = ground (
    arith,
    l.on_active s g.world,
    l.on_frame s a g.world,
    l.on_frame s b g.world,
    l.on_frame s c g.world,
  )

  pins-start_off :
      (g : Gpio d) (s a b c : d.Output)
      → HasPins g s a b c
      → (start_off d g).0 ≡ ok tt
      → pins s a b c (start_off d g).1
        ≡ (false, l.active a g.world, l.active b g.world, l.active c g.world)
  unfolding start_off
  pins-start_off g s a b c p = ground (
    arith,
    l.off_active s g.world,
    l.off_frame s a g.world,
    l.off_frame s b g.world,
    l.off_frame s c g.world,
  )

  set_levels_outputs :
      (k i : ℕ) (os : List d.Output) (g : Gpio d)
      → ((set_levels d k i os g).1.start_output ≡ g.start_output)
        × ((set_levels d k i os g).1.power_outputs ≡ g.power_outputs)
  unfolding set_levels
  set_levels_outputs k i [] g = (refl, refl)
  set_levels_outputs k i (o ∷ os) g =
      let g' = (drive d (switch d (level_bit k i) o) g).1 in
      ground (arith, set_levels_outputs k (i + 1) os g')

  HasPins-set_power_level :
      (k : ℕ) (g : Gpio d) (s a b c : d.Output)
      → HasPins g s a b c
      → HasPins (set_power_level d k g).1 s a b c
  unfolding set_power_level
  HasPins-set_power_level k g s a b c p = ground (arith, set_levels_outputs k 0 g.power_outputs g)

  level_then_off :
      (k : ℕ) (g : Gpio d) (s a b c : d.Output)
      → HasPins g s a b c
      → (set_power_level d k g).0 ≡ ok tt
      → (start_off d (set_power_level d k g).1).0 ≡ ok tt
      → pins s a b c (start_off d (set_power_level d k g).1).1
        ≡ (false, level_bit k 0, level_bit k 1, level_bit k 2)
  level_then_off k g s a b c p h i =
      let g' = (set_power_level d k g).1 in
      cc (
        set_power_level_three k g s a b c p h,
        pins-start_off g' s a b c (HasPins-set_power_level k g s a b c p) i,
      )

  -- A sequence of two drives and its success.
  then_ok :
      (m n : Call d (Unit {0})) (line : Text) (g : Gpio d)
      → (finish d line ((do m; n; pure true) g)).0.ok ≡ true
      → ((m g).0 ≡ ok tt)
        × ((n (m g).1).0 ≡ ok tt)
        × ((finish d line ((do m; n; pure true) g)).1 ≡ (n (m g).1).1)
  then_ok m n line g h = ground arith

  one_ok :
      (m : Call d (Unit {0})) (line : Text) (g : Gpio d)
      → (finish d line ((do m; pure true) g)).0.ok ≡ true
      → ((m g).0 ≡ ok tt) × ((finish d line ((do m; pure true) g)).1 ≡ (m g).1)
  one_ok m line g h = ground arith

  stop_at :
      (k : ℕ) (line : Text) (g : Gpio d) (s a b c : d.Output)
      → HasPins g s a b c
      → (finish d line ((do set_power_level d k; start_off d; pure true) g)).0.ok ≡ true
      → pins s a b c (finish d line ((do set_power_level d k; start_off d; pure true) g)).1
        ≡ (false, level_bit k 0, level_bit k 1, level_bit k 2)
  stop_at k line g s a b c p h =
      let (x, y, z) = then_ok (set_power_level d k) (start_off d) line g h in
      ap (pins s a b c) z ∙ level_then_off k g s a b c p x y

  -- If a live adapter answers OK to the controller's stop, the gate is off and the power pins hold
  -- 111, the request for the end pulse.
  pub stop_pins :
      (g : Gpio d) (s a b c : d.Output)
      → IsLive d g
      → HasPins g s a b c
      → (send_command d stop_line g).0.ok ≡ true
      → pins s a b c (send_command d stop_line g).1 ≡ (false, true, true, true)
  stop_pins g s a b c h p =
      subst
        (λ (r : ArduinoResponse × Gpio d).
          r.0.ok ≡ true → pins s a b c r.1 ≡ (false, true, true, true))
        (sym (send_stops d g h).0) (stop_at 7 stop_line g s a b c p)

  -- If it answers OK to an emergency stop, the gate is off and the power pins hold 000, no pulse.
  emergency_pins :
      (g : Gpio d) (s a b c : d.Output)
      → IsLive d g
      → HasPins g s a b c
      → (send_command d emergency_line g).0.ok ≡ true
      → pins s a b c (send_command d emergency_line g).1 ≡ (false, false, false, false)
  emergency_pins g s a b c h p =
      subst
        (λ (r : ArduinoResponse × Gpio d).
          r.0.ok ≡ true → pins s a b c r.1 ≡ (false, false, false, false))
        (sym (send_stops d g h).1) (stop_at 0 emergency_line g s a b c p)

  -- If it answers OK to a claw power, the gate is as it was, and the power pins hold the three bits of
  -- the level of that percent.
  pub power_pins_hold :
      (n : ℤ) (g : Gpio d) (s a b c : d.Output)
      → IsLive d g
      → HasPins g s a b c
      → (send_command d (power_line n) g).0.ok ≡ true
      → let k = power_level n in
        pins s a b c (send_command d (power_line n) g).1
        ≡ (l.active s g.world, level_bit k 0, level_bit k 1, level_bit k 2)
  power_pins_hold n g s a b c h p =
      let k = power_level n in
      subst
        (λ (r : ArduinoResponse × Gpio d).
          r.0.ok ≡ true
          → pins s a b c r.1 ≡ (l.active s g.world, level_bit k 0, level_bit k 1, level_bit k 2))
        (sym (send_power d n g h))
        (λ fine.
          let (x, z) = one_ok (set_power_level d k) (power_line n) g fine in
          ap (pins s a b c) z ∙ set_power_level_three k g s a b c p x)

  -- If it answers OK to a start, the gate is on, and the power pins are as they were.
  pub start_pins :
      (n : ℤ) (g : Gpio d) (s a b c : d.Output)
      → IsLive d g
      → HasPins g s a b c
      → (send_command d (start_line n) g).0.ok ≡ true
      → pins s a b c (send_command d (start_line n) g).1
        ≡ (true, l.active a g.world, l.active b g.world, l.active c g.world)
  start_pins n g s a b c h p =
      subst
        (λ (r : ArduinoResponse × Gpio d).
          r.0.ok ≡ true
          → pins s a b c r.1 ≡ (true, l.active a g.world, l.active b g.world, l.active c g.world))
        (sym (send_start d n g h))
        (λ fine.
          let (x, z) = one_ok (start_on d) (start_line n) g fine in
          ap (pins s a b c) z ∙ pins-start_on g s a b c p x)
