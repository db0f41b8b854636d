-- ===== src/Controller/Gpio/Lines.antt =====
-- The lines that the controller sends, as the adapter reads them.
use progress_claw_machine.Shared.{
  starts_with, text_eq, ℕ, suc, ◌≡◌, ◌≢◌, refl, ◌∙◌, ap, ℤ, pos, negsuc, Text, codes, strip, Bool,
  true, false, none, some, [], ◌∷◌, ◌++◌, arith,
}
use progress_claw_machine.Shared.Action.{Result, pure, ◌>>◌}
use progress_claw_machine.Shared.Decimal.{
  show_ℤ, show_ℕ, read_int, AllDigits, show_ℕ-digits, show_ℤ-pos, show_ℤ-negsuc,
}
use progress_claw_machine.Shared.Printed.{rstrip-append-show_ℤ, read_int-show_ℤ}
use progress_claw_machine.Controller.Adapter.{
  ArduinoResponse, power_line, start_line, stop_line, emergency_line,
}
use progress_claw_machine.Controller.Gpio.{
  Devices, Gpio, last_word, word_of, Call, send_nonempty, set_power_value, power_level,
  outputs_ready, connect, set_power_level, set_power_word, word_of, Call, send_nonempty,
  set_power_value, start_on, start_off, execute, reply, send_stripped, send_command,
}

last_word_digits : (s : Text) → AllDigits s → last_word s ≡ none
unfolding last_word
last_word_digits [] h = refl
last_word_digits (c ∷ s) h = rw (last_word_digits s h.2) (ground arith)

last_word-show_ℕ : (n : ℕ) → last_word (show_ℕ n) ≡ none
last_word-show_ℕ n =
    let (c, s, e, h) = show_ℕ-digits n in ap last_word e ∙ last_word_digits (c ∷ s) h

last_word-cons : (c : ℕ) (s : Text) → c ≢ 32 → last_word s ≡ none → last_word (c ∷ s) ≡ none
unfolding last_word
last_word-cons c s h e = rw e (ground arith)

last_word-show_ℤ : (n : ℤ) → last_word (show_ℤ n) ≡ none
last_word-show_ℤ (pos n) = ap last_word (show_ℤ-pos n) ∙ last_word-show_ℕ n
last_word-show_ℤ (negsuc n) =
    ap last_word (show_ℤ-negsuc n) ∙ last_word-cons b'-' _ (omega arith) (last_word-show_ℕ (suc n))

last_word_power : (t : Text) → last_word t ≡ none → last_word (codes "CLAW POWER " ++ t) ≡ some t
unfolding last_word
last_word_power t e = rw e refl

strip_power : (n : ℤ) → strip (power_line n) ≡ power_line n
unfolding power_line
strip_power n = rstrip-append-show_ℤ (codes "CLAW POWER ") n

strip_start : (n : ℤ) → strip (start_line n) ≡ start_line n
unfolding start_line
strip_start n = rstrip-append-show_ℤ (codes "PLAY START ") n

module _ (d : Devices) where
  -- The adapter drives the pins and has them ready.
  pub record IsLive (g : Gpio d) : Type 0 where
    pub not_mock : g.force_mock ≡ false
    pub ready : outputs_ready d g ≡ true

  -- What a live adapter answers to a command that has run.
  abbrev pub finish : Text → Result Text Bool × Gpio d → ArduinoResponse × Gpio d
  finish command (r, g) = (reply d command r, g)

  connect_live : (g : Gpio d) → IsLive g → connect d g ≡ g
  unfolding connect
  connect_live g h = ground arith

  send_live :
      (c : ℕ) (s : Text) (g : Gpio d)
      → IsLive g
      → send_stripped d (c ∷ s) g ≡ finish (c ∷ s) (execute d (c ∷ s) g)
  unfolding send_stripped
  send_live c s g h = rw (connect_live g h) (simp (h.not_mock, h.ready))

  send_nonempty-cons :
      (c : ℕ) (s : Text) (g : Gpio d) → send_nonempty d (c ∷ s) g ≡ send_stripped d (c ∷ s) g
  unfolding send_nonempty
  send_nonempty-cons c s g = refl

  send_command-strip :
      (line : Text) (g : Gpio d) → send_command d line g ≡ send_nonempty d (strip line) g
  unfolding send_command
  send_command-strip line g = refl

  send_command-cons :
      (line : Text) (c : ℕ) (s : Text) (g : Gpio d)
      → strip line ≡ c ∷ s
      → IsLive g
      → send_command d line g ≡ finish (c ∷ s) (execute d (c ∷ s) g)
  send_command-cons line c s g e h =
      send_command-strip line g
      ∙ ap (λ t. send_nonempty d t g) e
      ∙ send_nonempty-cons c s g
      ∙ send_live c s g h

  set_power_word-some :
      (t : Text) (n : ℤ)
      → read_int t ≡ some n
      → set_power_word d t ≡ set_power_level d (power_level n)
  unfolding set_power_word
  set_power_word-some t n r = ap (set_power_value d t) r

  execute_word :
      (t : Text) (g : Gpio d)
      → execute d (codes "CLAW POWER " ++ t) g
        ≡ (do set_power_word d (word_of d (last_word (codes "CLAW POWER " ++ t))); pure true) g
  unfolding execute starts_with text_eq
  execute_word t g = refl

  power_word_execute :
      (t : Text) (n : ℤ) (g : Gpio d)
      → last_word t ≡ none
      → read_int t ≡ some n
      → execute d (codes "CLAW POWER " ++ t) g ≡ (do set_power_level d (power_level n); pure true) g
  power_word_execute t n g e r =
      execute_word t g
      ∙ ap (λ w. (do set_power_word d (word_of d w); pure true) g) (last_word_power t e)
      ∙ ap (λ (m : Call d (Unit {0})). (do m; pure true) g) (set_power_word-some t n r)

  execute_start :
      (t : Text) (g : Gpio d)
      → execute d (codes "PLAY START " ++ t) g ≡ (do start_on d; pure true) g
  unfolding execute starts_with text_eq
  execute_start t g = refl

  -- A live adapter that is sent a claw power sets the level of that percent on the power pins, and
  -- nothing else; it answers OK exactly if the pins took it.
  pub send_power :
      (n : ℤ) (g : Gpio d)
      → IsLive g
      → send_command d (power_line n) g
        ≡ finish (power_line n) ((do set_power_level d (power_level n); pure true) g)
  unfolding power_line
  send_power n g h =
      send_command-cons _ _ _ g (strip_power n) h
      ∙ ap (finish (power_line n))
          (power_word_execute (show_ℤ n) n g (last_word-show_ℤ n) (read_int-show_ℤ n))

  -- A live adapter that is sent a start of any duration switches the play gate on, and nothing else.
  pub send_start :
      (n : ℤ) (g : Gpio d)
      → IsLive g
      → send_command d (start_line n) g ≡ finish (start_line n) ((do start_on d; pure true) g)
  unfolding start_line
  send_start n g h =
      send_command-cons _ _ _ g (strip_start n) h
      ∙ ap (finish (start_line n)) (execute_start (show_ℤ n) g)

  -- A live adapter that is sent a stop sets level 7, the end pulse, and then switches the gate off;
  -- on an emergency stop it sets level 0, no pulse, and then switches the gate off.
  pub send_stops :
      (g : Gpio d)
      → IsLive g
      → (send_command d stop_line g
          ≡ finish stop_line ((do set_power_level d 7; start_off d; pure true) g))
        × (send_command d emergency_line g
            ≡ finish emergency_line ((do set_power_level d 0; start_off d; pure true) g))
  unfolding execute starts_with text_eq
  send_stops g h = (send_command-cons _ _ _ g refl h, send_command-cons _ _ _ g refl h)
