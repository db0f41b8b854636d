-- ===== src/Controller/Gpio/Connection.antt =====
-- Opening and losing the outputs.
use progress_claw_machine.Shared.Decimal.{read_int}
use progress_claw_machine.Shared.{
  Option-cases, strip, ℕ, ◌+◌, ◌≡◌, refl, ℤ, Text, true, false, is_some, none, some, List, [], ◌∷◌,
  ◌++◌, length, length-append, arith, ◌⊎◌, inl, inr,
}
use progress_claw_machine.Shared.Action.{Result, ok, Result-cases}
use progress_claw_machine.Controller.Adapter.{stop_line}
use progress_claw_machine.Controller.Gpio.{
  Devices, Gpio, close, drive, switch, level_bit, set_levels, set_power_level, set_power_word,
  word_of, last_word, power_level, start_on, start_off, send_stripped, drop_lost, open_power,
  open_outputs, after_open, connect, connected, send_command, send_nonempty, execute,
}

-- Either no output is open, or the gate and one output for each power pin are.
pub record IsWhole {d : Devices} (g : Gpio d) : Type 0 where
  pub none_or_all :
      ((g.start_output ≡ none) × (g.power_outputs ≡ []))
      ⊎ ((is_some g.start_output ≡ true) × (length g.power_outputs ≡ length g.power_pins))

module _ (d : Devices) where
  open_power_count :
      (pins : List ℤ) (g : Gpio d)
      → (open_power d pins g).0 ≡ ok tt
      → (length (open_power d pins g).1.power_outputs ≡ length g.power_outputs + length pins)
        × ((open_power d pins g).1.start_output ≡ g.start_output)
        × ((open_power d pins g).1.power_pins ≡ g.power_pins)
  unfolding open_power
  open_power_count [] g h = (omega arith, refl, refl)
  open_power_count (pin ∷ pins) g h = elim (Result-cases (d.make pin true g.world).0) [
    | inl (o, e) ↦
        let g' = record g {
          world = (d.make pin true g.world).1;
          power_outputs = g.power_outputs ++ o ∷ [];
        } in
        ground (arith, e, open_power_count pins g', length-append g.power_outputs (o ∷ []))
    | inr (e, q) ↦ ground arith
  ]

  open_outputs-IsWhole : (g : Gpio d) → IsWhole (after_open d (open_outputs d g))
  unfolding open_outputs after_open
  open_outputs-IsWhole g = elim (Result-cases (d.make g.start_pin false g.world).0) [
    | inl (o, e) ↦
        let g' = record g {
          world = (d.make g.start_pin false g.world).1;
          start_output = some o;
          power_outputs = [];
        } in
        elim (Result-cases (open_power d g.power_pins g').0) [
          | inl (u, q) ↦ ground (arith, e, q, open_power_count g.power_pins g')
          | inr (x, q) ↦ ground (arith, e, q)
        ]
    | inr (x, e) ↦ ground (arith, e)
  ]

  drop_lost_closed :
      (g : Gpio d) → ((drop_lost d g).start_output ≡ none) × ((drop_lost d g).power_outputs ≡ [])
  unfolding drop_lost close
  drop_lost_closed g = ground arith

  connect-IsWhole : (g : Gpio d) → IsWhole g → IsWhole (connect d g)
  unfolding connect
  connect-IsWhole g h = ground (arith, open_outputs-IsWhole (drop_lost d g), drop_lost_closed g)

  drive-IsWhole :
      (f : d.World → Result Text (Unit {0}) × d.World) (g : Gpio d)
      → IsWhole g
      → IsWhole (drive d f g).1
  unfolding drive
  drive-IsWhole f g h = ground arith

  set_levels-IsWhole :
      (k i : ℕ) (os : List d.Output) (g : Gpio d) → IsWhole g → IsWhole (set_levels d k i os g).1
  unfolding set_levels
  set_levels-IsWhole k i [] g h = h
  set_levels-IsWhole k i (o ∷ os) g h =
      let f = switch d (level_bit k i) o in
      ground (arith, drive-IsWhole f g h, set_levels-IsWhole k (i + 1) os (drive d f g).1)

  set_power_level-IsWhole : (k : ℕ) (g : Gpio d) → IsWhole g → IsWhole (set_power_level d k g).1
  unfolding set_power_level
  set_power_level-IsWhole k g = set_levels-IsWhole k 0 g.power_outputs g

  set_power_word-IsWhole : (w : Text) (g : Gpio d) → IsWhole g → IsWhole (set_power_word d w g).1
  unfolding set_power_word
  set_power_word-IsWhole w g h = elim (Option-cases (read_int w)) [
    | inl e ↦ rw e h
    | inr (n, e) ↦ rw e (set_power_level-IsWhole (power_level n) g h)
  ]

  start_on-IsWhole : (g : Gpio d) → IsWhole g → IsWhole (start_on d g).1
  unfolding start_on
  start_on-IsWhole g h = ground arith

  start_off-IsWhole : (g : Gpio d) → IsWhole g → IsWhole (start_off d g).1
  unfolding start_off
  start_off-IsWhole g h = ground arith

  execute-IsWhole : (line : Text) (g : Gpio d) → IsWhole g → IsWhole (execute d line g).1
  unfolding execute
  execute-IsWhole line g h = ground (
    arith,
    set_power_word-IsWhole (word_of d (last_word line)) g,
    start_on-IsWhole g,
    set_power_level-IsWhole 7 g,
    set_power_level-IsWhole 0 g,
    start_off-IsWhole (set_power_level d 7 g).1,
    start_off-IsWhole (set_power_level d 0 g).1,
  )

  send_stripped-IsWhole :
      (line : Text) (g : Gpio d) → IsWhole g → IsWhole (send_stripped d line g).1
  unfolding send_stripped
  send_stripped-IsWhole line g h =
      ground (arith, connect-IsWhole g h, execute-IsWhole line (connect d g))

  send_nonempty-IsWhole :
      (line : Text) (g : Gpio d) → IsWhole g → IsWhole (send_nonempty d line g).1
  unfolding send_nonempty
  send_nonempty-IsWhole [] g h = h
  send_nonempty-IsWhole (c ∷ line) g h = send_stripped-IsWhole (c ∷ line) g h

  -- Whatever is sent, and whichever calls of the library fail, the adapter keeps no part of its
  -- outputs open: none, or the gate and one for each power pin. The same holds of the `connected` check.
  pub send_command-IsWhole :
      (line : Text) (g : Gpio d)
      → IsWhole g
      → IsWhole (send_command d line g).1 × IsWhole (connected d g).1
  unfolding send_command connected
  send_command-IsWhole line g h = (send_nonempty-IsWhole (strip line) g h, connect-IsWhole g h)

  mock_nonempty :
      (line : Text) (g : Gpio d)
      → g.force_mock ≡ true
      → (send_nonempty d line g).1.force_mock ≡ true
  unfolding send_nonempty
  mock_nonempty [] g m = m
  mock_nonempty (c ∷ line) g m = ground arith

  -- A forced mock answers every line of the controller with success, and logs it; it opens nothing.
  pub send_mock :
      (c : ℕ) (line : Text) (g : Gpio d)
      → g.force_mock ≡ true
      → strip (c ∷ line) ≡ c ∷ line
      → (((send_command d (c ∷ line) g).0.ok ≡ true)
          × ((send_command d (c ∷ line) g).1
              ≡ record g { mock_log = g.mock_log ++ (c ∷ line) ∷ [] })
          × ((connected d g).1 ≡ g))
  unfolding send_command connected connect
  send_mock c line g m e = rw e (ground arith)

  -- A forced mock stays one, whatever is sent, and accepts the controller's stop.
  pub mock_stays :
      (line : Text) (g : Gpio d) → g.force_mock ≡ true → (send_command d line g).1.force_mock ≡ true
  unfolding send_command
  mock_stays line g m = mock_nonempty (strip line) g m

  pub connected_mock : (g : Gpio d) → g.force_mock ≡ true → (connected d g).1.force_mock ≡ true
  unfolding connected connect
  connected_mock g m = ground arith

  pub mock_stop : (g : Gpio d) → g.force_mock ≡ true → (send_command d stop_line g).0.ok ≡ true
  unfolding send_command send_nonempty send_stripped
  mock_stop g m = rw m refl
