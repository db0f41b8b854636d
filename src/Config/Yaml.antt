-- ===== src/Config/Yaml.antt =====
-- The YAML readers of vision/camera_manager.py, recommendation/engine.py and game/state_engine.py. A
-- file is its lines, or none if it does not exist. Python's `float` is an argument, as floats are not
-- modelled; a dictionary is the list of its assignments, the latest first.
pub mod Printed
use progress_claw_machine.Shared.{
  ℕ, ℤ, Text, codes, text_eq, starts_with, strip, lstrip, rstrip, split_once, before_first, lower,
  is_one_of, any, ◌==◌, Bool, true, false, not, ◌||◌, ◌&&◌, map, Option, none, some, List, [], ◌∷◌,
  if◌then◌else◌,
}
use progress_claw_machine.Shared.Decimal.{read_int}

module _ (Real : Type 0) (float : Text → Option Real) where
  pub data Scalar : Type 0 where
    boolean : Bool → Scalar
    integer : ℤ → Scalar
    real : Real → Scalar
    text : Text → Scalar

  abbrev is_quote : ℕ → Bool
  is_quote c = c == 34 || c == 39

  -- `s.strip("\"'")`
  strip_quotes_left : Text → Text
  strip_quotes_left [] = []
  strip_quotes_left (c ∷ s) = let rest = strip_quotes_left s in if is_quote c then rest else c ∷ s

  strip_quotes_right : Text → Text
  strip_quotes_right [] = []
  strip_quotes_right (c ∷ s) = elim (strip_quotes_right s) [
    | [] ↦ if is_quote c then [] else c ∷ []
    | d ∷ t ↦ c ∷ d ∷ t
  ]

  unfoldable pub unquoted : Text → Scalar
  unfolding strip_quotes_left strip_quotes_right
  unquoted value = text (strip_quotes_right (strip_quotes_left (strip value)))

  -- The number of a text, or the text.
  unfoldable pub number_or_text : Text → Scalar
  unfolding unquoted
  number_or_text value =
      let lowered = map lower (strip value) in
      if any (λ c. c == b'.') lowered
      then elim (float lowered) [ none ↦ unquoted value | some x ↦ real x ]
      else elim (read_int lowered) [ none ↦ unquoted value | some n ↦ integer n ]

  -- `_coerce_scalar` of recommendation/engine.py
  abbrev pub coerce_plain : Text → Scalar
  coerce_plain = number_or_text

  -- `_coerce_scalar` of vision/camera_manager.py and of game/state_engine.py
  unfoldable pub coerce_scalar : Text → Scalar
  coerce_scalar value =
      let lowered = map lower (strip value) in
      if is_one_of (codes "true" ∷ codes "yes" ∷ codes "on" ∷ []) lowered
      then boolean true
      else if is_one_of (codes "false" ∷ codes "no" ∷ codes "off" ∷ []) lowered
      then boolean false
      else number_or_text value

  abbrev is_empty : Text → Bool
  is_empty [] = true
  is_empty (_ ∷ _) = false

  abbrev pub Dict : Type 0
  Dict = List (Text × Scalar)

  abbrev stored : (Text → Scalar) → Option (Text × Text) → Dict → Dict
  stored coerce none d = d
  stored coerce (some (key, value)) d = (strip key, coerce value) ∷ d

  -- A line of `_read_simple_yaml`.
  unfoldable pub read_line : (Text → Scalar) → Text → Dict → Dict
  read_line coerce line d =
      let stripped = strip (before_first b'#' line) in
      if is_empty stripped then d else stored coerce (split_once b':' stripped) d

  read_lines : (Text → Scalar) → List Text → Dict → Dict
  read_lines coerce [] d = d
  read_lines coerce (line ∷ lines) d = read_lines coerce lines (read_line coerce line d)

  -- `_read_simple_yaml`, with the `_coerce_scalar` of its module
  unfoldable pub read_simple_yaml : (Text → Scalar) → Option (List Text) → Dict
  unfolding read_lines
  read_simple_yaml coerce none = []
  read_simple_yaml coerce (some lines) = read_lines coerce lines []

  -- A value of a game configuration: a scalar, or a section.
  pub data Entry : Type 0 where
    scalar : Scalar → Entry
    section : Dict → Entry

  -- The variables of `_read_game_yaml`.
  pub record GameYaml : Type 0 where
    pub entries : List (Text × Entry)
    pub current_section : Option Text

  abbrev extended : Text → Scalar → Entry → Entry
  extended key value (section d) = section ((key, value) ∷ d)
  extended key value (scalar s) = scalar s

  -- `data[name][key] = value`, for the latest entry of the name
  unfoldable pub set_in : Text → Text → Scalar → List (Text × Entry) → List (Text × Entry)
  set_in name key value [] = []
  set_in name key value ((k, e) ∷ es) =
      if text_eq k name then (k, extended key value e) ∷ es else (k, e) ∷ set_in name key value es

  abbrev top_level : Text → Text → GameYaml → GameYaml
  top_level key value g =
      if is_empty (strip value)
      then record {
        entries = (strip key, section []) ∷ g.entries;
        current_section = some (strip key);
      }
      else record {
        entries = (strip key, scalar (coerce_scalar value)) ∷ g.entries;
        current_section = none;
      }

  abbrev in_section : Option Text → Text → Text → GameYaml → GameYaml
  in_section none key value g = g
  in_section (some []) key value g = g
  in_section (some (c ∷ name)) key value g = record g {
    entries = set_in (c ∷ name) (strip key) (coerce_scalar value) g.entries;
  }

  abbrev is_indented : Text → Bool
  is_indented [] = false
  is_indented (c ∷ s) = c == 32 || c == 9

  abbrev game_pair : Bool → Option (Text × Text) → GameYaml → GameYaml
  game_pair indented none g = g
  game_pair indented (some (key, value)) g =
      if indented then in_section g.current_section key value g else top_level key value g

  -- A line of `_read_game_yaml`.
  unfoldable pub read_game_line : Text → GameYaml → GameYaml
  read_game_line line g =
      if is_empty (strip line) || starts_with (lstrip line) (codes "#")
      then g
      else game_pair (is_indented line) (split_once b':' (rstrip (before_first b'#' line))) g

  read_game_lines : List Text → GameYaml → GameYaml
  read_game_lines [] g = g
  read_game_lines (line ∷ lines) g = read_game_lines lines (read_game_line line g)

  -- `_read_game_yaml`
  unfoldable pub read_game_yaml : Option (List Text) → List (Text × Entry)
  unfolding read_game_lines
  read_game_yaml none = []
  read_game_yaml (some lines) =
      (read_game_lines lines (record { entries = []; current_section = none })).entries
