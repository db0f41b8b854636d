-- ===== src/Controller/Serial.antt =====
-- controller/adapters/arduino_adapter.py: the serial transport, with its mock. What it calls of
-- pyserial, `glob` and the file system is a record, `Port`. A call that raises gives the text of its
-- error. Python's decoding of a line is part of `read_line`, and its sleep is left out.
pub mod Outcome
use progress_claw_machine.Shared.{
  ℕ, ℤ, Text, codes, ◌++◌, strip, starts_with, Bool, true, false, not, ◌||◌, any, ◌==◌, is_none,
  is_some, Option, none, some, List, [], ◌∷◌, if◌then◌else◌,
}
use progress_claw_machine.Shared.Action.{Result, ok, err}
use progress_claw_machine.Controller.Adapter.{ArduinoResponse, Adapter}

pub record Port : Type 1 where
  pub World : Type 0
  pub Handle : Type 0
  pub glob : Text → World → List Text
  pub exists : Text → World → Bool
  pub open_port : Text → ℤ → World → Result Text Handle × World
  pub write : Handle → Text → World → Result Text (Unit {0}) × World
  pub flush : Handle → World → Result Text (Unit {0}) × World
  pub read_line : Handle → World → Result Text Text × World
  pub close_port : Handle → World → Result Text (Unit {0}) × World

module _ (p : Port) where
  -- `has_serial` tells whether pyserial could be imported.
  pub record Serial : Type 0 where
    pub port : Option Text
    pub baud_rate : ℤ
    pub force_mock : Bool
    pub device_patterns : List Text
    pub has_serial : Bool
    pub handle : Option p.Handle
    pub mock_log : List Text
    pub world : p.World

  abbrev pub mock_mode : Serial → Bool
  mock_mode s = s.force_mock || is_none s.handle

  -- A character of `"*?["`.
  abbrev is_wildcard : ℕ → Bool
  is_wildcard c = c == b'*' || c == b'?' || c == b'['

  -- `_expand_patterns`
  unfoldable pub expand_patterns : List Text → p.World → List Text
  expand_patterns [] w = []
  expand_patterns (pattern ∷ patterns) w =
      let rest = expand_patterns patterns w in
      if any is_wildcard pattern
      then p.glob pattern w ++ rest
      else if p.exists pattern w
      then pattern ∷ rest
      else rest

  abbrev first : List Text → Option Text
  first [] = none
  first (t ∷ ts) = some t

  -- A text that is there and not empty.
  abbrev given : Option Text → Option Text
  given none = none
  given (some []) = none
  given (some (c ∷ t)) = some (c ∷ t)

  -- `_discover_port`
  unfoldable pub discover_port : Serial → Option Text
  unfolding expand_patterns
  discover_port s = elim (given s.port) [
    | some port ↦ some port
    | none ↦ first (expand_patterns s.device_patterns s.world)
  ]

  unfoldable pub connected : Serial → Bool
  connected s = if s.force_mock then false else is_some s.handle || is_some (discover_port s)

  -- `self.port or self._discover_port()`, where an empty text is none.
  abbrev chosen_port : Serial → Option Text
  chosen_port s = given (discover_port s)

  opened : Result Text p.Handle × p.World → Serial → Serial
  opened (ok h, w) s = record s { handle = some h; world = w }
  opened (err e, w) s = record s { handle = none; force_mock = true; world = w }

  unfoldable pub connect : Serial → Serial
  unfolding opened
  connect s =
      if s.force_mock || is_some s.handle
      then s
      else if not s.has_serial
      then record s { force_mock = true }
      else elim (chosen_port s) [
        | none ↦ record s { force_mock = true }
        | some port ↦ opened (p.open_port port s.baud_rate s.world) s
      ]

  -- The handle is gone also if its `close` raises.
  unfoldable pub close : Serial → Result Text (Unit {0}) × Serial
  close s = elim s.handle [
    | none ↦ (ok tt, s)
    | some h ↦ let (r, w) = p.close_port h s.world in (r, record s { handle = none; world = w })
  ]

  abbrev Io : Type 0 → Type 0
  Io A = p.World → Result Text A × p.World

  abbrev io_then : {A B : Type 0} → Result Text A × p.World → (A → Io B) → Result Text B × p.World
  io_then (ok x, w) f = f x w
  io_then (err e, w) f = (err e, w)

  -- The body of the `try`: the line that came back.
  unfoldable pub exchange : p.Handle → Text → Io Text
  exchange h command w = io_then (p.write h (command ++ 10 ∷ []) w) (λ _ w1.
      io_then (p.flush h w1) (λ _ w2. io_then (p.read_line h w2) (λ t w3. (ok (strip t), w3))))

  abbrev pub or_no_response : Text → Text
  or_no_response [] = codes "ERR NO_RESPONSE"
  or_no_response (c ∷ t) = c ∷ t

  -- The `except`: it closes, and if that raises too, the error leaves `send_command`.
  failed_command : Text → Serial → Result Text ArduinoResponse × Serial
  unfolding close
  failed_command e s =
      let (r, t) = close s in
      (
        elim r [
          | ok _ ↦ ok (record { ok = false; message = codes "ERR " ++ e; mock = false })
          | err f ↦ err f
        ],
        t,
      )

  answered : Result Text Text × p.World → Serial → Result Text ArduinoResponse × Serial
  unfolding failed_command
  answered (ok raw, w) s =
      let response = or_no_response raw in
      (
        ok (record { ok = starts_with response (codes "OK"); message = response; mock = false }),
        record s { world = w },
      )
  answered (err e, w) s = failed_command e (record s { world = w })

  mocked : Text → Serial → Result Text ArduinoResponse × Serial
  mocked command s = (
    ok (record { ok = true; message = codes "OK MOCK " ++ command; mock = true }),
    record s { mock_log = s.mock_log ++ command ∷ [] },
  )

  -- After `connect`: the mock, or the port.
  transmit : Text → Serial → Result Text ArduinoResponse × Serial
  unfolding mocked answered
  transmit command s = if s.force_mock then mocked command s else elim s.handle [
    | none ↦ mocked command s
    | some h ↦ answered (exchange h command s.world) s
  ]

  send_nonempty : Text → Serial → Result Text ArduinoResponse × Serial
  unfolding connect transmit
  send_nonempty [] s =
      (ok (record { ok = false; message = codes "ERR EMPTY_COMMAND"; mock = mock_mode s }), s)
  send_nonempty (c ∷ command) s = transmit (c ∷ command) (connect s)

  unfoldable pub send_command : Text → Serial → Result Text ArduinoResponse × Serial
  unfolding send_nonempty
  send_command command = send_nonempty (strip command)

  abbrev said : {A : Type 0} → Result Text A → Option A
  said (ok x) = some x
  said (err e) = none

  -- The transport that `RuntimeController` takes.
  abbrev pub serial_adapter : Adapter
  serial_adapter = record {
    Device = Serial;
    send_command = λ line s. let (r, t) = send_command line s in (said r, t);
    connected = λ s. (connected s, s);
    mock_mode = mock_mode;
  }
