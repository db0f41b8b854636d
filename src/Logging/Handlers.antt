-- ===== src/Logging/Handlers.antt =====
-- services/logging/structured.py: the handlers that the configurations add, and what they let through.
use progress_claw_machine.Shared.{
  ◌&&◌, Text, ℕ, ◌+◌, ◌≡◌, ◌∙◌, sym, ap, refl, Bool, true, false, ◌||◌, Bool-cases, inl, inr, some,
  List, [], ◌∷◌, ◌++◌, All, if◌then◌else◌, codes, text_eq, starts_with, arith,
}
use progress_claw_machine.Logging.{
  LogRecord, Sink, standard_output, system_log, command_log, arduino_log, safety_log, vision_log,
  game_state_log, recommendation_log, Mark, json, vision_mark, game_state_mark, recommendation_mark,
  Handler, handler, mark_eq, is_marked, json_handlers, passes, handled, lets, by_name,
}

abbrev sink_eq : Sink → Sink → Bool
sink_eq standard_output standard_output = true
sink_eq system_log system_log = true
sink_eq command_log command_log = true
sink_eq arduino_log arduino_log = true
sink_eq safety_log safety_log = true
sink_eq vision_log vision_log = true
sink_eq game_state_log game_state_log = true
sink_eq recommendation_log recommendation_log = true
sink_eq _ _ = false

abbrev pub mark_of : Sink → Mark
mark_of vision_log = vision_mark
mark_of game_state_log = game_state_mark
mark_of recommendation_log = recommendation_mark
mark_of _ = json

-- How often a place is among some places, and how many handlers write to it.
unfoldable pub times : Sink → List Sink → ℕ
times k [] = 0
times k (j ∷ js) = (if sink_eq j k then 1 else 0) + times k js

pub handlers_for : Sink → List Handler → ℕ
handlers_for k [] = 0
handlers_for k (h ∷ hs) = (if sink_eq h.sink k then 1 else 0) + handlers_for k hs

handlers_for-append :
    (k : Sink) (hs gs : List Handler)
    → handlers_for k (hs ++ gs) ≡ handlers_for k hs + handlers_for k gs
unfolding handlers_for
handlers_for-append k [] gs = omega arith
handlers_for-append k (h ∷ hs) gs = omega (arith, handlers_for-append k hs gs)

is_marked-append :
    (m : Mark) (hs gs : List Handler) → is_marked m (hs ++ gs) ≡ (is_marked m hs || is_marked m gs)
is_marked-append m [] gs = refl
is_marked-append m (h ∷ hs) gs = ground (arith, is_marked-append m hs gs)

-- Which records each place is for.
abbrev pub belongs : LogRecord → Sink → Bool
belongs r standard_output = true
belongs r system_log = true
belongs r command_log = text_eq r.event (codes "controller_command")
belongs r arduino_log = starts_with r.name (codes "progress_claw.controller.arduino")
belongs r safety_log = starts_with r.event (codes "safety_")
belongs r vision_log = starts_with r.name (codes "progress_claw.vision")
belongs r game_state_log = starts_with r.name (codes "progress_claw.game_state")
belongs r recommendation_log = starts_with r.name (codes "progress_claw.recommendation")

-- The handler lets exactly the records through that belong where it writes.
abbrev Suits : Handler → Type 0
Suits h = (r : LogRecord) → lets h.filter r ≡ belongs r h.sink

All-Suits-append : (hs gs : List Handler) → All Suits hs → All Suits gs → All Suits (hs ++ gs)
All-Suits-append [] gs h g = g
All-Suits-append (x ∷ hs) gs (h, hs') g = (h, All-Suits-append hs gs hs' g)

sink_eq_sound : (j k : Sink) → sink_eq j k ≡ true → j ≡ k
sink_eq_sound j k h = ground arith

mark_eq_sound : (m n : Mark) → mark_eq m n ≡ true → m ≡ n
mark_eq_sound m n h = ground arith

step_lem :
    (p q e : Bool) (n t : ℕ)
    → (e ≡ true → p ≡ q)
    → t ≡ (if q then n else 0)
    → (if p then (if e then 1 else 0) + t else t) ≡ (if q then (if e then 1 else 0) + n else 0)
step_lem p q e n t h g = ground arith

if_same : (b : Bool) (n : ℕ) → (if b then n else n) ≡ n
if_same true n = refl
if_same false n = refl

times-if :
    (k j : Sink) (p : Bool) (w : List Sink)
    → times k (if p then j ∷ w else w)
      ≡ (if p then (if sink_eq j k then 1 else 0) + times k w else times k w)
unfolding times
times-if k j true w = refl
times-if k j false w = refl

pub times-handled :
    (k : Sink) (r : LogRecord) (hs : List Handler)
    → All Suits hs
    → times k (handled r hs) ≡ (if belongs r k then handlers_for k hs else 0)
unfolding handlers_for handled times
times-handled k r [] s = sym (if_same (belongs r k) 0)
times-handled k r (h ∷ hs) (s, ss) =
    times-if k h.sink (lets h.filter r) (handled r hs)
    ∙ step_lem (lets h.filter r) (belongs r k) (sink_eq h.sink k) (handlers_for k hs)
        (times k (handled r hs)) (λ e. s r ∙ ap (belongs r) (sink_eq_sound h.sink k e))
        (times-handled k r hs ss)

-- The marks that there are, and one handler for each place of such a mark.
pub record Fits (on : Mark → Bool) (hs : List Handler) : Type 0 where
  pub suited : All Suits hs
  pub counted : (k : Sink) → handlers_for k hs ≡ (if on (mark_of k) then 1 else 0)
  pub marked : (m : Mark) → is_marked m hs ≡ on m

pub Fits-same :
    (on on' : Mark → Bool) (hs : List Handler)
    → ((m : Mark) → on m ≡ on' m)
    → Fits on hs
    → Fits on' hs
Fits-same on on' hs same f = record {
  suited = f.suited;
  counted = λ k. f.counted k ∙ ap (λ b. if b then 1 else 0) (same (mark_of k));
  marked = λ m. f.marked m ∙ same m;
}

-- What is added under a mark: one handler for each of its places.
pub record IsBlock (m : Mark) (gs : List Handler) : Type 0 where
  pub suited : All Suits gs
  pub counted : (k : Sink) → handlers_for k gs ≡ (if mark_eq (mark_of k) m then 1 else 0)
  pub marked : (n : Mark) → is_marked n gs ≡ mark_eq n m

abbrev pub with_mark : Mark → (Mark → Bool) → Mark → Bool
with_mark m on n = on n || mark_eq n m

abbrev pub configure : Mark → List Handler → List Handler → List Handler
configure m gs hs = if is_marked m hs then hs else hs ++ gs

module _ (m : Mark) (on : Mark → Bool) where
  same_on : (n : Mark) → mark_eq n m ≡ true → on n ≡ on m
  same_on n h = ap on (mark_eq_sound n m h)

  with_mark_on : (n : Mark) → on m ≡ true → with_mark m on n ≡ on n
  with_mark_on n h = ground (arith, same_on n)

  with_mark_off :
      (n : Mark)
      → on m ≡ false
      → (if with_mark m on n then 1 else 0)
        ≡ (if on n then 1 else 0) + (if mark_eq n m then 1 else 0)
  with_mark_off n h = ground (arith, same_on n)

  pub configure-Fits :
      (gs hs : List Handler) → IsBlock m gs → Fits on hs → Fits (with_mark m on) (configure m gs hs)
  configure-Fits gs hs b f = elim (Bool-cases (is_marked m hs)) [
    | inl there ↦
        let yes_on = sym (f.marked m) ∙ there in
        rw there (record {
          suited = f.suited;
          counted = λ k.
              f.counted k ∙ ap (λ b. if b then 1 else 0) (sym (with_mark_on (mark_of k) yes_on));
          marked = λ n. f.marked n ∙ sym (with_mark_on n yes_on);
        })
    | inr absent ↦
        let off = sym (f.marked m) ∙ absent in
        rw absent (record {
          suited = All-Suits-append hs gs f.suited b.suited;
          counted = λ k.
              let c = f.counted k in
              let d = b.counted k in
              let e = with_mark_off (mark_of k) off in omega (arith, handlers_for-append k hs gs);
          marked = λ n.
              is_marked-append n hs gs
              ∙ ap (λ b. b || is_marked n gs) (f.marked n)
              ∙ ap (λ b. on n || b) (b.marked n);
        })
  ]

pub if_and :
    (b c : Bool) → ◌≡◌ {A = ℕ} (if b then (if c then 1 else 0) else 0) (if b && c then 1 else 0)
if_and b c = ground arith

pub or_assoc : (a b c : Bool) → ((a || b) || c) ≡ (a || (b || c))
or_assoc a b c = ground arith

pub or_false : (a : Bool) → a ≡ (a || false)
or_false a = ground arith

if_same_bool : (b : Bool) → (if b then true else false) ≡ b
if_same_bool true = refl
if_same_bool false = refl

pub json-IsBlock : IsBlock json json_handlers
unfolding handlers_for passes
json-IsBlock = record {
  suited = (λ r. refl, (λ r. refl, (λ r. if_same_bool _, (λ r. if_same_bool _, (λ r. refl, tt)))));
  counted = λ k. ground arith;
  marked = λ n. ground arith;
}

abbrev pub own : Mark → Sink → Text → List Handler
own m sink prefix = handler sink (some (by_name prefix)) m ∷ []

pub vision-IsBlock : IsBlock vision_mark (own vision_mark vision_log (codes "progress_claw.vision"))
unfolding handlers_for passes
vision-IsBlock = record {
  suited = (λ r. if_same_bool _, tt);
  counted = λ k. ground arith;
  marked = λ n. ground arith;
}

pub game-IsBlock :
    IsBlock game_state_mark (own game_state_mark game_state_log (codes "progress_claw.game_state"))
unfolding handlers_for passes
game-IsBlock = record {
  suited = (λ r. if_same_bool _, tt);
  counted = λ k. ground arith;
  marked = λ n. ground arith;
}

pub recommendation-IsBlock :
    IsBlock recommendation_mark
      (own recommendation_mark recommendation_log (codes "progress_claw.recommendation"))
unfolding handlers_for passes
recommendation-IsBlock = record {
  suited = (λ r. if_same_bool _, tt);
  counted = λ k. ground arith;
  marked = λ n. ground arith;
}

pub nothing-Fits : Fits (λ m. false) []
unfolding handlers_for
nothing-Fits = record { suited = tt; counted = λ k. refl; marked = λ m. refl }
