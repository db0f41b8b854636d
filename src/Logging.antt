-- ===== src/Logging.antt =====
-- services/logging/structured.py, with configure_vision_logging of vision/stream_service.py and the
-- configurations of logging in game/state_engine.py and recommendation/engine.py. A handler is where it
-- writes, its filter and its mark; a file goes by its name in the log directory. The root logger is its
-- handlers and its level, which no other logger sets for itself. A value of a record's attribute is an argument, as is the text of the time.
pub mod Handlers
pub mod Once
use progress_claw_machine.Shared.{
  ℕ, leb, Text, codes, text_eq, starts_with, Bool, true, false, ◌||◌, ◌&&◌, any, Option, none, some,
  List, [], ◌∷◌, ◌++◌, if◌then◌else◌,
}

-- `WARNING`, the level of a root logger that nothing has set, and `INFO`, the default of
-- `configure_logging`, which every caller takes.
abbrev pub warning_level : ℕ
warning_level = 30

abbrev pub info_level : ℕ
info_level = 20

-- What the root logger and the filters read of a record.
pub record LogRecord : Type 0 where
  pub level : ℕ
  pub name : Text
  pub event : Text

pub data Sink : Type 0 where
  standard_output system_log command_log arduino_log safety_log : Sink
  vision_log game_state_log recommendation_log : Sink

pub data Mark : Type 0 where
  json vision_mark game_state_mark recommendation_mark : Mark

-- `EventFilter`; an empty text is no condition.
pub record EventFilter : Type 0 where
  pub logger_prefix : Text
  pub event_prefix : Text
  pub event_name : Text

abbrev is_set : Text → Bool
is_set [] = false
is_set (_ ∷ _) = true

-- `filter`
unfoldable pub passes : EventFilter → LogRecord → Bool
passes f r =
    if is_set f.logger_prefix && starts_with r.name f.logger_prefix
    then true
    else if is_set f.event_name && text_eq r.event f.event_name
    then true
    else is_set f.event_prefix && starts_with r.event f.event_prefix

abbrev pub by_name : Text → EventFilter
by_name prefix = record { logger_prefix = prefix; event_prefix = []; event_name = [] }

abbrev pub by_event : Text → EventFilter
by_event name = record { logger_prefix = []; event_prefix = []; event_name = name }

abbrev pub by_event_prefix : Text → EventFilter
by_event_prefix prefix = record { logger_prefix = []; event_prefix = prefix; event_name = [] }

pub record Handler : Type 0 where
  pub sink : Sink
  pub filter : Option EventFilter
  pub mark : Mark

abbrev pub handler : Sink → Option EventFilter → Mark → Handler
handler sink filter mark = record { sink = sink; filter = filter; mark = mark }

abbrev pub mark_eq : Mark → Mark → Bool
mark_eq json json = true
mark_eq vision_mark vision_mark = true
mark_eq game_state_mark game_state_mark = true
mark_eq recommendation_mark recommendation_mark = true
mark_eq _ _ = false

-- `any(getattr(handler, "…", False) for handler in root.handlers)`
abbrev pub is_marked : Mark → List Handler → Bool
is_marked m hs = any (λ h. mark_eq h.mark m) hs

abbrev pub json_handlers : List Handler
json_handlers =
    handler standard_output none json
    ∷ handler system_log none json
    ∷ handler command_log (some (by_event (codes "controller_command"))) json
    ∷ handler arduino_log (some (by_name (codes "progress_claw.controller.arduino"))) json
    ∷ handler safety_log (some (by_event_prefix (codes "safety_"))) json
    ∷ []

-- `logging.getLogger()`
pub record Root : Type 0 where
  pub handlers : List Handler
  pub level : ℕ

-- `configure_logging`
unfoldable pub configure_logging : Root → Root
configure_logging root =
    if is_marked json root.handlers
    then root
    else record { handlers = root.handlers ++ json_handlers; level = info_level }

-- A handler of its own for the loggers of one service. Its filter is on the name only.
abbrev pub own_handler : Mark → Sink → Text → Root → Root
own_handler m sink prefix root =
    if is_marked m root.handlers
    then root
    else record root { handlers = root.handlers ++ handler sink (some (by_name prefix)) m ∷ [] }

unfoldable pub configure_vision_logging : Root → Root
unfolding configure_logging
configure_vision_logging root =
    own_handler vision_mark vision_log (codes "progress_claw.vision") (configure_logging root)

unfoldable pub configure_game_state_logging : Root → Root
configure_game_state_logging =
    own_handler game_state_mark game_state_log (codes "progress_claw.game_state")

unfoldable pub configure_recommendation_logging : Root → Root
configure_recommendation_logging =
    own_handler recommendation_mark recommendation_log (codes "progress_claw.recommendation")

abbrev pub lets : Option EventFilter → LogRecord → Bool
lets none r = true
lets (some f) r = passes f r

-- Where the handlers write a record, in their order.
unfoldable pub handled : LogRecord → List Handler → List Sink
handled r [] = []
handled r (h ∷ hs) = let rest = handled r hs in if lets h.filter r then h.sink ∷ rest else rest

-- Where a record is written: nowhere below the root's level.
unfoldable pub written : LogRecord → Root → List Sink
written r root = if leb root.level r.level then handled r root.handlers else []

-- The attributes that `JsonFormatter` copies, in its order.
abbrev pub extra_keys : List Text
extra_keys =
    codes "event"
    ∷ codes "command"
    ∷ codes "response"
    ∷ codes "ok"
    ∷ codes "port"
    ∷ codes "baud_rate"
    ∷ codes "source"
    ∷ codes "reason"
    ∷ codes "error"
    ∷ []

module _ (Value : Type 0) where
  -- The entries of the attributes that the record has.
  unfoldable pub extras : (Text → Option Value) → List Text → List (Text × Value)
  extras attribute [] = []
  extras attribute (key ∷ keys) =
      let rest = extras attribute keys in
      elim (attribute key) [ none ↦ rest | some v ↦ (key, v) ∷ rest ]

  -- The payload of `format`, before `json.dumps` sorts and prints it.
  unfoldable pub payload :
      Value → Value → Value → Value → (Text → Option Value) → List (Text × Value)
  unfolding extras
  payload timestamp level logger message attribute =
      (codes "timestamp", timestamp)
      ∷ (codes "level", level)
      ∷ (codes "logger", logger)
      ∷ (codes "message", message)
      ∷ extras attribute extra_keys
