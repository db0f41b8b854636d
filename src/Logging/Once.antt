-- ===== src/Logging/Once.antt =====
-- services/logging/structured.py: how often a record is written to a place, in a process that configures
-- logging in any order.
use progress_claw_machine.Shared.{
  leb, not, ◌&&◌, any, Text, ℕ, ◌≡◌, ◌∙◌, ap, refl, Bool, true, false, ◌||◌, List, [], ◌∷◌,
  if◌then◌else◌, codes, arith,
}
use progress_claw_machine.Logging.{
  LogRecord, Sink, vision_log, game_state_log, recommendation_log, Mark, json, vision_mark,
  game_state_mark, recommendation_mark, Handler, mark_eq, is_marked, json_handlers,
  configure_logging, configure_vision_logging, configure_game_state_logging,
  configure_recommendation_logging, written, handled, Root, info_level, warning_level, own_handler,
}
use progress_claw_machine.Logging.Handlers.{
  times, belongs, mark_of, times-handled, Fits, Fits-same, nothing-Fits, with_mark, configure,
  configure-Fits, if_and, or_assoc, or_false, json-IsBlock, vision-IsBlock, game-IsBlock,
  recommendation-IsBlock, own,
}

-- The calls that configure logging: the service's own, and those of the three engines.
pub data Configuring : Type 0 where
  service_logging vision_logging game_logging recommendation_logging : Configuring

abbrev pub configured : Configuring → Root → Root
configured service_logging = configure_logging
configured vision_logging = configure_vision_logging
configured game_logging = configure_game_state_logging
configured recommendation_logging = configure_recommendation_logging

unfoldable pub configure_all : List Configuring → Root → Root
configure_all [] root = root
configure_all (c ∷ cs) root = configure_all cs (configured c root)

-- The call sets the mark up.
abbrev pub sets_up : Mark → Configuring → Bool
sets_up m service_logging = mark_eq m json
sets_up m vision_logging = mark_eq m json || mark_eq m vision_mark
sets_up m game_logging = mark_eq m game_state_mark
sets_up m recommendation_logging = mark_eq m recommendation_mark

abbrev with_call : Configuring → (Mark → Bool) → Mark → Bool
with_call c on m = on m || sets_up m c

-- The same on the handlers alone.
abbrev extended : Configuring → List Handler → List Handler
extended service_logging hs = configure json json_handlers hs
extended vision_logging hs =
    configure vision_mark (own vision_mark vision_log (codes "progress_claw.vision"))
      (configure json json_handlers hs)
extended game_logging hs =
    configure game_state_mark
      (own game_state_mark game_state_log (codes "progress_claw.game_state")) hs
extended recommendation_logging hs =
    configure recommendation_mark
      (own recommendation_mark recommendation_log (codes "progress_claw.recommendation")) hs

handlers-own :
    (m : Mark) (sink : Sink) (prefix : Text) (root : Root)
    → (own_handler m sink prefix root).handlers ≡ configure m (own m sink prefix) root.handlers
handlers-own m sink prefix root = ground arith

handlers-configure_logging :
    (root : Root) → (configure_logging root).handlers ≡ configure json json_handlers root.handlers
unfolding configure_logging
handlers-configure_logging root = ground arith

handlers-configured :
    (c : Configuring) (root : Root) → (configured c root).handlers ≡ extended c root.handlers
unfolding configure_vision_logging configure_game_state_logging configure_recommendation_logging
handlers-configured service_logging root = handlers-configure_logging root
handlers-configured vision_logging root =
    handlers-own vision_mark vision_log (codes "progress_claw.vision") (configure_logging root)
    ∙ ap (configure vision_mark (own vision_mark vision_log (codes "progress_claw.vision")))
        (handlers-configure_logging root)
handlers-configured game_logging root =
    handlers-own game_state_mark game_state_log (codes "progress_claw.game_state") root
handlers-configured recommendation_logging root =
    handlers-own recommendation_mark recommendation_log (codes "progress_claw.recommendation") root

level-own :
    (m : Mark) (sink : Sink) (prefix : Text) (root : Root)
    → (own_handler m sink prefix root).level ≡ root.level
level-own m sink prefix root = ground arith

abbrev level_after : Bool → Root → ℕ
level_after up root = if up && not (is_marked json root.handlers) then info_level else root.level

level-configure_logging : (root : Root) → (configure_logging root).level ≡ level_after true root
unfolding configure_logging
level-configure_logging root = ground arith

level-configured :
    (c : Configuring) (root : Root) → (configured c root).level ≡ level_after (sets_up json c) root
unfolding configure_vision_logging configure_game_state_logging configure_recommendation_logging
level-configured service_logging root = level-configure_logging root
level-configured vision_logging root =
    level-own vision_mark vision_log (codes "progress_claw.vision") (configure_logging root)
    ∙ level-configure_logging root
level-configured game_logging root =
    level-own game_state_mark game_state_log (codes "progress_claw.game_state") root
level-configured recommendation_logging root =
    level-own recommendation_mark recommendation_log (codes "progress_claw.recommendation") root

extended-Fits :
    (c : Configuring) (on : Mark → Bool) (hs : List Handler)
    → Fits on hs
    → Fits (with_call c on) (extended c hs)
extended-Fits service_logging on hs f = configure-Fits json on _ hs json-IsBlock f
extended-Fits vision_logging on hs f =
    Fits-same (with_mark vision_mark (with_mark json on)) (with_call vision_logging on) _
      (λ m. or_assoc (on m) (mark_eq m json) (mark_eq m vision_mark))
      (configure-Fits vision_mark (with_mark json on) _ (configure json json_handlers hs)
        vision-IsBlock (configure-Fits json on _ hs json-IsBlock f))
extended-Fits game_logging on hs f = configure-Fits game_state_mark on _ hs game-IsBlock f
extended-Fits recommendation_logging on hs f =
    configure-Fits recommendation_mark on _ hs recommendation-IsBlock f

-- The level of the root, by whether the service's own logging is set up.
abbrev pub level_of : Bool → ℕ
level_of up = if up then info_level else warning_level

record IsConfigured (on : Mark → Bool) (root : Root) : Type 0 where
  fits : Fits on root.handlers
  leveled : root.level ≡ level_of (on json)

configured-IsConfigured :
    (c : Configuring) (on : Mark → Bool) (root : Root)
    → IsConfigured on root
    → IsConfigured (with_call c on) (configured c root)
configured-IsConfigured c on root s =
    let marked = s.fits.marked json in
    let leveled = s.leveled in
    let l = level-configured c root in
    record {
      fits = rw (handlers-configured c root) (extended-Fits c on root.handlers s.fits);
      leveled = l ∙ ground arith;
    }

configure_all-IsConfigured :
    (cs : List Configuring) (on : Mark → Bool) (root : Root)
    → IsConfigured on root
    → IsConfigured (λ m. on m || any (sets_up m) cs) (configure_all cs root)
unfolding configure_all
configure_all-IsConfigured [] on root s = record {
  fits = Fits-same on _ root.handlers (λ m. or_false (on m)) s.fits;
  leveled = s.leveled ∙ ap level_of (or_false (on json));
}
configure_all-IsConfigured (c ∷ cs) on root s =
    let t =
      configure_all-IsConfigured cs (with_call c on) (configured c root)
        (configured-IsConfigured c on root s) in
    let assoc = λ (m : Mark). or_assoc (on m) (sets_up m c) (any (sets_up m) cs) in
    record {
      fits =
          Fits-same (λ m. with_call c on m || any (sets_up m) cs)
            (λ m. on m || any (sets_up m) (c ∷ cs)) _ assoc t.fits;
      leveled = t.leveled ∙ ap level_of (assoc json);
    }

-- The root logger of a new process.
abbrev pub fresh_root : Root
fresh_root = record { handlers = []; level = warning_level }

fresh-IsConfigured : IsConfigured (λ m. false) fresh_root
fresh-IsConfigured = record { fits = nothing-Fits; leveled = refl }

times-written :
    (k : Sink) (r : LogRecord) (root : Root) (n : ℕ)
    → times k (handled r root.handlers) ≡ n
    → times k (written r root) ≡ (if leb root.level r.level then n else 0)
unfolding written times
times-written k r root n h = ground arith

-- Whatever configurations of logging are called, in whatever order and however often, in a new
-- process: a record is written to a place exactly once if its level is at least the root's, which is
-- INFO when a call set up the service's own logging and WARNING otherwise, it belongs there, and a call
-- that sets the place up was made, and not at all otherwise.
pub times-configure_all :
    (cs : List Configuring) (r : LogRecord) (k : Sink)
    → times k (written r (configure_all cs fresh_root)) ≡ (
        if leb (if any (sets_up json) cs then 20 else 30) r.level
        then (if belongs r k && any (sets_up (mark_of k)) cs then 1 else 0)
        else 0)
times-configure_all cs r k =
    let s = configure_all-IsConfigured cs (λ m. false) fresh_root fresh-IsConfigured in
    let once : ℕ = if belongs r k && any (sets_up (mark_of k)) cs then 1 else 0 in
    times-written k r (configure_all cs fresh_root) _ (
      times-handled k r (configure_all cs fresh_root).handlers s.fits.suited
      ∙ ap (λ (n : ℕ). if belongs r k then n else 0) (s.fits.counted k)
      ∙ if_and (belongs r k) (any (sets_up (mark_of k)) cs))
    ∙ ap (λ l. if leb l r.level then once else 0) s.leveled
