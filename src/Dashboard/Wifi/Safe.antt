-- ===== src/Dashboard/Wifi/Safe.antt =====
-- What the Wi-Fi boundary lets through, whatever is submitted and whatever the helper answers.
use progress_claw_machine.Shared.{not, ◌&&◌, Bool-cases, inl, inr, if◌then◌else◌}
use progress_claw_machine.Dashboard.Wifi.{
  is_live, is_true, require, executed_flag, same_name, invalid_response,
}
use progress_claw_machine.Shared.Action.{ok_injective}
use mathlib.Core.Path.{subst}
use progress_claw_machine.Shared.{◌∙◌, ap, codes, ◌+◌}
use progress_claw_machine.Dashboard.Wifi.{◌>>=◌, required, clean_security}
use progress_claw_machine.Shared.{
  ◌≤◌, ℤ, pos, negsuc, ◌≤ℤ◌, Text, text_eq_sound, ◌≡◌, refl, Bool, true, false, Option, none, some,
  List, [], ◌∷◌, length, All, arith,
}
use progress_claw_machine.Shared.Action.{Result, ok, err}
use progress_claw_machine.Dashboard.Wifi.{
  WifiError, Json, Items, nil, cons, Fields, get, byte_length, has_control, validate_credentials,
  safe_ssid, HelperAction, scan, connect, Network, Answer, clean_message, clean_signal,
  clean_network, clean_items, clean_networks, clean_connection, clean_body, item_count,
  sanitize_response, request, live_connect,
}

-- A network name that can be shown and stored: 1 to 32 bytes, no control character.
pub record IsName (s : Text) : Type 0 where
  pub long_enough : 1 ≤ length s
  pub short_enough : byte_length s ≤ 32
  pub printable : has_control s ≡ false

pub record IsPassword (p : Text) : Type 0 where
  pub at_least : 8 ≤ byte_length p
  pub at_most : byte_length p ≤ 63
  pub no_control : has_control p ≡ false

-- Credentials are accepted only if both are texts, the name is of 1 to 32 bytes, the password of 8 to
-- 63, and neither has a control character; the name is given back as it was.
pub validate_credentials_sound :
    (s p : Text) {name : Text}
    → validate_credentials (some s) (some p) ≡ ok name
    → (name ≡ s) × IsName s × IsPassword p
unfolding validate_credentials
validate_credentials_sound [] p h = cc
validate_credentials_sound (c ∷ s) p h = ground arith

-- And every such pair is accepted.
pub validate_credentials_complete :
    (s p : Text) → IsName s → IsPassword p → validate_credentials (some s) (some p) ≡ ok s
unfolding validate_credentials
validate_credentials_complete [] p h k = absurd (omega arith)
validate_credentials_complete (c ∷ s) p h k = ground arith

pub record IsNetwork (n : Network) : Type 0 where
  pub name : IsName n.ssid
  pub weakest : negsuc 199 ≤ℤ n.signal
  pub strongest : n.signal ≤ℤ pos 0

safe_ssid-IsName : (j : Json) (s : Text) → safe_ssid j ≡ ok (some s) → IsName s
unfolding safe_ssid
safe_ssid-IsName (Json.string []) s h = cc
safe_ssid-IsName (Json.string (c ∷ t)) s h = ground arith
safe_ssid-IsName _ s h = cc

clean_signal_range : (j : Json) (n : ℤ) → clean_signal j ≡ ok n → (negsuc 199 ≤ℤ n) × (n ≤ℤ pos 0)
unfolding clean_signal
clean_signal_range (Json.number m) n h = ground arith
clean_signal_range _ n h = cc

bind_ok :
    {A B : Type 0} (m : Result WifiError A) (f : A → Result WifiError B) {b : B}
    → (m >>= f) ≡ ok b
    → (a : A) × (m ≡ ok a) × (f a ≡ ok b)
bind_ok (ok a) f h = (a, refl, h)
bind_ok (err e) f h = cc

required-some : (o : Option Text) (s : Text) → required o ≡ ok s → o ≡ some s
required-some none s h = cc
required-some (some t) s h = ground arith

clean_network-IsNetwork : (j : Json) (n : Network) → clean_network j ≡ ok n → IsNetwork n
unfolding clean_network
clean_network-IsNetwork (Json.object fs) n h =
    let (signal, e, h1) = bind_ok (clean_signal (get (codes "signal") fs)) _ h in
    let (security, f, h2) = bind_ok (clean_security (get (codes "security") fs)) _ h1 in
    let (found, g, h3) = bind_ok (safe_ssid (get (codes "ssid") fs)) _ h2 in
    let (name, i, h4) = bind_ok (required found) _ h3 in
    let read : safe_ssid (get (codes "ssid") fs) ≡ ok (some name) =
      g ∙ ap ok (required-some found name i) in
    let (weak, strong) = clean_signal_range (get (codes "signal") fs) signal e in
    let isname = safe_ssid-IsName (get (codes "ssid") fs) name read in ground arith
clean_network-IsNetwork _ n h = cc

clean_items-All : (xs : Items) (ns : List Network) → clean_items xs ≡ ok ns → All IsNetwork ns
unfolding clean_items
clean_items-All nil ns h = subst (All IsNetwork) (ok_injective h) tt
clean_items-All (cons x xs) ns h =
    let (n, e, h1) = bind_ok (clean_network x) _ h in
    let (rest, f, h2) = bind_ok (clean_items xs) _ h1 in
    subst (All IsNetwork) (ok_injective h2)
      (clean_network-IsNetwork x n e, clean_items-All xs rest f)

length-clean_items :
    (xs : Items) (ns : List Network) → clean_items xs ≡ ok ns → length ns ≡ item_count xs
unfolding clean_items item_count
length-clean_items nil ns h = subst (λ ns. length ns ≡ 0) (ok_injective h) refl
length-clean_items (cons x xs) ns h =
    let (n, e, h1) = bind_ok (clean_network x) _ h in
    let (rest, f, h2) = bind_ok (clean_items xs) _ h1 in
    subst (λ ns. length ns ≡ item_count xs + 1) (ok_injective h2)
      (omega (arith, length-clean_items xs rest f))

clean_networks_sound :
    (j : Json) (ns : List Network) → clean_networks j ≡ ok ns → All IsNetwork ns × (length ns ≤ 100)
unfolding clean_networks
clean_networks_sound (Json.array xs) ns h =
    ground (arith, clean_items-All xs ns, length-clean_items xs ns)
clean_networks_sound _ ns h = cc

abbrev IsScan : Answer → Type 0
IsScan a = All IsNetwork a.networks × (length a.networks ≤ 100) × (a.executed ≡ true)

clean_body_scan :
    (executed : Bool) (message : Text) (fs : Fields) (a : Answer)
    → executed ≡ true
    → clean_body scan executed message fs ≡ ok a
    → IsScan a
unfolding clean_body
clean_body_scan executed message fs a e h =
    let (ns, f, h1) = bind_ok (clean_networks (get (codes "networks") fs)) _ h in
    let (good, few) = clean_networks_sound (get (codes "networks") fs) ns f in
    subst IsScan (ok_injective h1) (good, few, e)

require-true : (v : Bool) (u : Unit {0}) → require v ≡ ok u → v ≡ true
require-true true u h = refl
require-true false u h = cc

sanitize_scan : (fs : Fields) (a : Answer) → sanitize_response scan fs ≡ ok a → IsScan a
unfolding sanitize_response
sanitize_scan fs a h =
    let (message, e, h1) = bind_ok (clean_message (get (codes "message") fs)) _ h in
    let (u, f, h2) = bind_ok (require (not (not (executed_flag fs)))) _ h1 in
    clean_body_scan (executed_flag fs) message fs a (ground (arith, require-true _ u f)) h2

err_ne_ok : {A : Type 0} {e : WifiError} {a : A} → ◌≡◌ {A = Result WifiError A} (err e) (ok a) → ⊥
err_ne_ok h = cc

request_object :
    (action : HelperAction) (answered : Option Json) (a : Answer)
    → request action answered ≡ ok a
    → (fs : Fields) × (sanitize_response action fs ≡ ok a)
unfolding request
request_object action none a h = cc
request_object action (some (Json.object fs)) a h =
    elim (Bool-cases (is_true (get (codes "ok") fs) && is_live (get (codes "mode") fs))) [
      | inl live ↦ (fs, rw live at h)
      | inr dead ↦ absurd (err_ne_ok (rw dead at h))
    ]
request_object action (some _) a h = cc

-- A scan that is accepted, whatever the helper answered, was executed, and lists at most 100 networks,
-- each with a name of 1 to 32 bytes without control characters and a signal from -200 to 0.
scan_sound :
    (answered : Option Json) (a : Answer)
    → request scan answered ≡ ok a
    → All IsNetwork a.networks × (length a.networks ≤ 100) × (a.executed ≡ true)
scan_sound answered a h = let (fs, e) = request_object scan answered a h in sanitize_scan fs a e

clean_connection-connect :
    (executed : Bool) (message : Text) (fs : Fields) (a : Answer)
    → clean_connection connect executed message fs ≡ ok a
    → (a.connected ≡ some true) × (a.executed ≡ executed)
unfolding clean_connection
clean_connection-connect executed message fs a h = ground arith

same_name_sound : (o : Option Text) (s : Text) → same_name o s ≡ true → o ≡ some s
same_name_sound none s h = cc
same_name_sound (some t) s h = ap some (text_eq_sound t s h)

accepted :
    (b : Answer) (name : Text) (a : Answer)
    → ◌≡◌ {A = Result WifiError Answer}
        (if same_name b.ssid name then ok b else err invalid_response)
        (ok a)
    → (b.ssid ≡ some name) × (b ≡ a)
accepted b name a h = elim (Bool-cases (same_name b.ssid name)) [
  | inl same ↦ (same_name_sound b.ssid name same, ok_injective (rw same at h))
  | inr other ↦ absurd (err_ne_ok (rw other at h))
]

sanitize_connect :
    (fs : Fields) (a : Answer)
    → sanitize_response connect fs ≡ ok a
    → (a.connected ≡ some true) × (a.executed ≡ true)
unfolding sanitize_response clean_body
sanitize_connect fs a h =
    let (message, e, h1) = bind_ok (clean_message (get (codes "message") fs)) _ h in
    let (u, f, h2) = bind_ok (require (not (not (executed_flag fs)))) _ h1 in
    let (up, same) = clean_connection-connect (executed_flag fs) message fs a h2 in
    (up, ground (arith, require-true _ u f, same))

-- A live connection that is reported, whatever the helper answered, is to exactly the submitted
-- network, whose name and password meet the rules, and the helper executed it and is connected.
pub live_connect_sound :
    (s p : Text) (helper : Text → Option Json) (a : Answer)
    → live_connect (some s) (some p) helper ≡ ok a
    → IsName s × IsPassword p × (a.ssid ≡ some s) × (a.connected ≡ some true) × (a.executed ≡ true)
unfolding live_connect
live_connect_sound s p helper a h =
    let (name, e, h1) = bind_ok (validate_credentials (some s) (some p)) _ h in
    let (b, f, h2) = bind_ok (request connect (helper name)) _ h1 in
    let (same, good, safe) = validate_credentials_sound s p e in
    let (fs, g) = request_object connect (helper name) b f in
    let (up, run) = sanitize_connect fs b g in
    let (named, same_answer) = accepted b name a h2 in
    (
      good,
      safe,
      (subst (λ (x : Answer). x.ssid ≡ some name) same_answer named) ∙ ap some same,
      subst (λ (x : Answer). x.connected ≡ some true) same_answer up,
      subst (λ (x : Answer). x.executed ≡ true) same_answer run,
    )
