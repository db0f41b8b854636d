-- ===== src/Controller/Serial/Outcome.antt =====
-- What a command over the serial port comes to, whatever the port does.
use progress_claw_machine.Shared.{
  Text, codes, ◌++◌, strip, starts_with, ◌≡◌, ◌≢◌, ◌↔◌, ◌⊎◌, inl, inr, refl, true, false, some,
  is_some, Option-cases, Bool-cases, [], ◌∷◌, arith,
}
use progress_claw_machine.Shared.Action.{Result, ok, err, is_ok}
use progress_claw_machine.Controller.Adapter.{ArduinoResponse}
use progress_claw_machine.Controller.Serial.{
  Port, Serial, mock_mode, connect, exchange, transmit, send_nonempty, send_command, answered,
  or_no_response,
}

module _ (p : Port) where
  -- Connecting ends with a port or with the mock, never with neither, and keeps an open port.
  connect_decides :
      (s : Serial p)
      → let t = connect p s in
        (is_some t.handle ≡ false → t.force_mock ≡ true)
        × (s.force_mock ≡ true → t ≡ s)
        × (is_some s.handle ≡ true → t ≡ s)
        × (t.mock_log ≡ s.mock_log)
  unfolding connect
  connect_decides s = ground arith

  -- The command goes to an open port, which fails on it, and then fails to close.
  pub record BreaksOn (command : Text) (s : Serial p) (h : p.Handle) : Type 0 where
    pub nonempty : strip command ≢ []
    pub live : (connect p s).force_mock ≡ false
    pub open_on : (connect p s).handle ≡ some h
    pub exchange_fails : is_ok (exchange p h (strip command) (connect p s).world).0 ≡ false
    pub close_fails :
        is_ok (p.close_port h (exchange p h (strip command) (connect p s).world).1).0 ≡ false

  exchange_raises :
      (command : Text) (s : Serial p) (h : p.Handle)
      → s.handle ≡ some h
      → let e = exchange p h command s.world in
        (is_ok (answered p e s).0 ≡ false)
        ↔ ((is_ok e.0 ≡ false) × (is_ok (p.close_port h e.1).0 ≡ false))
  unfolding answered
  exchange_raises command s h on = (λ k. ground arith, λ k. ground arith)

  transmit_raises :
      (command : Text) (s : Serial p)
      → is_ok (transmit p command s).0 ≡ false
      → (h : p.Handle) × (s.force_mock ≡ false)
        × (s.handle ≡ some h)
        × (is_ok (exchange p h command s.world).0 ≡ false)
        × (is_ok (p.close_port h (exchange p h command s.world).1).0 ≡ false)
  unfolding transmit
  transmit_raises command s k = elim (Option-cases s.handle) [
    | inl off ↦ absurd (ground arith)
    | inr (h, on) ↦ (
      h,
      ground arith,
      on,
      ((exchange_raises command s h on).0 (ground arith)).0,
      ((exchange_raises command s h on).0 (ground arith)).1,
    )
  ]

  transmit_breaks :
      (command : Text) (s : Serial p) (h : p.Handle)
      → s.force_mock ≡ false
      → s.handle ≡ some h
      → is_ok (exchange p h command s.world).0 ≡ false
      → is_ok (p.close_port h (exchange p h command s.world).1).0 ≡ false
      → is_ok (transmit p command s).0 ≡ false
  unfolding transmit
  transmit_breaks command s h live on e f =
      let k = (exchange_raises command s h on).1 (e, f) in ground arith

  send_nonempty_raises :
      (command : Text) (s : Serial p)
      → is_ok (send_nonempty p command s).0 ≡ false
      → (command ≢ []) × (is_ok (transmit p command (connect p s)).0 ≡ false)
  unfolding send_nonempty
  send_nonempty_raises [] s k = cc
  send_nonempty_raises (c ∷ t) s k = (λ e. cc, k)

  send_nonempty_breaks :
      (command : Text) (s : Serial p)
      → command ≢ []
      → is_ok (transmit p command (connect p s)).0 ≡ false
      → is_ok (send_nonempty p command s).0 ≡ false
  unfolding send_nonempty
  send_nonempty_breaks [] s n k = absurd (n refl)
  send_nonempty_breaks (c ∷ t) s n k = k

  -- `send_command` raises exactly if the command is not blank, an open port fails to write, flush or
  -- read it, and closing that port fails too. In every other case it gives a response.
  pub send_command_raises_iff :
      (command : Text) (s : Serial p)
      → (is_ok (send_command p command s).0 ≡ false) ↔ ((h : p.Handle) × BreaksOn command s h)
  unfolding send_command
  send_command_raises_iff command s = (
    λ k.
        let (some_text, r) = send_nonempty_raises (strip command) s k in
        let (h, live, on, e, f) = transmit_raises (strip command) (connect p s) r in
        (
          h,
          record {
            nonempty = some_text;
            live = live;
            open_on = on;
            exchange_fails = e;
            close_fails = f;
          },
        ),
    λ (h, b). send_nonempty_breaks (strip command) s b.nonempty (
        transmit_breaks (strip command) (connect p s) h b.live b.open_on b.exchange_fails
          b.close_fails),
  )

  -- Why a command was accepted: nobody read it but the mock, or the device read the command and what
  -- it answered, the message, starts with `OK`.
  abbrev pub Accepted : Text → Serial p → ArduinoResponse → Type 0
  Accepted command s x =
      ((x.mock ≡ true) × (mock_mode p s ≡ true) × (x.message ≡ codes "OK MOCK " ++ command))
      ⊎ ((x.mock ≡ false)
          × (mock_mode p s ≡ false)
          × ((h : p.Handle) × (s.handle ≡ some h)
              × ((exchange p h command s.world).0 ≡ ok x.message))
          × (starts_with x.message (codes "OK") ≡ true))

  or_no_response_lem :
      (t : Text) → starts_with (or_no_response p t) (codes "OK") ≡ true → or_no_response p t ≡ t
  unfolding starts_with
  or_no_response_lem [] h = absurd (ground arith)
  or_no_response_lem (c ∷ t) h = refl

  answered-Accepted :
      (e : Result Text Text × p.World) (s : Serial p) (x : ArduinoResponse)
      → (answered p e s).0 ≡ ok x
      → x.ok ≡ true
      → (x.mock ≡ false) × (e.0 ≡ ok x.message) × (starts_with x.message (codes "OK") ≡ true)
  unfolding answered
  answered-Accepted (ok t, w) s x e fine = ground (arith, or_no_response_lem t)
  answered-Accepted (err t, w) s x e fine = absurd (ground arith)

  transmit-Accepted :
      (command : Text) (s : Serial p) (x : ArduinoResponse)
      → (transmit p command s).0 ≡ ok x
      → x.ok ≡ true
      → Accepted command s x
  unfolding transmit
  transmit-Accepted command s x e fine = elim (Bool-cases s.force_mock) [
    | inl mocked ↦ inl (ground arith)
    | inr live ↦ elim (Option-cases s.handle) [
      | inl off ↦ inl (ground arith)
      | inr (h, on) ↦
          let run = exchange p h command s.world in
          let answer : (answered p run s).0 ≡ ok x = ground arith in
          let (real, said, fine') = answered-Accepted run s x answer fine in
          inr (real, ground arith, (h, on, said), fine')
    ]
  ]

  send_nonempty-Accepted :
      (command : Text) (s : Serial p) (x : ArduinoResponse)
      → (send_nonempty p command s).0 ≡ ok x
      → x.ok ≡ true
      → Accepted command (connect p s) x
  unfolding send_nonempty
  send_nonempty-Accepted [] s x e fine = absurd (ground arith)
  send_nonempty-Accepted (c ∷ t) s x e fine = transmit-Accepted (c ∷ t) (connect p s) x e fine

  -- A response is accepted only if, after connecting, the adapter is in mock mode and says so, or it
  -- has a port that took the command, and the line that the device answered, without the white space
  -- around it, is the message and starts with `OK`.
  pub send_command-Accepted :
      (command : Text) (s : Serial p) (x : ArduinoResponse)
      → (send_command p command s).0 ≡ ok x
      → x.ok ≡ true
      → Accepted (strip command) (connect p s) x
  unfolding send_command
  send_command-Accepted command s = send_nonempty-Accepted (strip command) s
