-- ===== src/Dashboard/Board/Players.antt =====
-- dashboard/backend/routes_player.py: the registration of a player, from the browser or the camera.
-- Base64, the files and the people counter are outside: their outcomes are arguments.
use progress_claw_machine.Shared.{
  ℕ, ◌*◌, ℤ, leb, ltb, Text, codes, text_eq, split_once, is_space, strip, Bool, true, false, not,
  ◌&&◌, Option, none, some, List, [], ◌∷◌, ◌++◌, length, take, if◌then◌else◌,
}
use progress_claw_machine.Controller.Adapter.{Adapter}
use progress_claw_machine.Dashboard.Panel
use progress_claw_machine.Dashboard.Board.{
  player_registered, Player, PlayerStatus, player_ready, ready_with, Board, add_event,
  apply_grabber_power_outputs, bad_name, bad_photo, not_jpeg, too_large, not_saved, no_camera,
  Reply, refused, show_page, controller_error_response, try,
}

-- `s.split()`: the words, with the one that is being read.
unfoldable pub words : Text → Text → List Text
words [] [] = []
words (d ∷ w) [] = (d ∷ w) ∷ []
words w (c ∷ s) = elim (is_space c) [
  | false ↦ words (w ++ c ∷ []) s
  | true ↦ elim w [ [] ↦ words [] s | d ∷ v ↦ (d ∷ v) ∷ words [] s ]
]

-- `" ".join(ws)`
unfoldable pub join_words : List Text → Text
join_words [] = []
join_words (w ∷ []) = w
join_words (w ∷ v ∷ ws) = w ++ b' ' ∷ join_words (v ∷ ws)

-- `clean_player_name`: nothing for a value that is no text.
unfoldable pub clean_player_name : Option Text → Option Text
unfolding words join_words
clean_player_name none = none
clean_player_name (some value) =
    let name = join_words (words [] (strip value)) in
    if leb 1 (length name) && leb (length name) 40 then some name else none

-- What the outside gives for one registration: the identifier and the time from the clock, the count
-- of people, and whether the files were written.
pub record Capture : Type 0 where
  pub id : ℕ
  pub time : Text
  pub people_count : Option ℤ
  pub saved : Bool

abbrev pub status_of : Option ℤ → PlayerStatus
status_of none = player_ready
status_of (some n) = ready_with n

module _ (a : Adapter) where
  abbrev pub registered : Text → Capture → Board a → Reply × Board a
  registered name c b =
      let p : Player = record {
        id = c.id;
        name = name;
        time = c.time;
        status = status_of c.people_count;
      } in
      show_page a (
        add_event a (player_registered name c.people_count)
          (record b { players = take 12 (p ∷ b.players) }))

  abbrev pub with_count : Option ℤ → (Board a → Reply × Board a) → Board a → Reply × Board a
  with_count none rest b = rest b
  with_count (some n) rest b =
      try a (apply_grabber_power_outputs a) (controller_error_response a) (λ _. rest)
        (record b { panel = Panel.set_ai_people_count n b.panel })

  -- The part that both routes share, from the saved files on.
  unfoldable pub register : Text → Capture → Board a → Reply × Board a
  register name c b =
      if not c.saved
      then (refused 500 not_saved, b)
      else with_count c.people_count (registered name c) (record b {
        player_photo_ready = true;
        player_photo_version = c.id;
        current_player_name = some name;
      })

  -- The cleaned name, or its refusal.
  abbrev pub with_name :
      Option Text → (Text → Board a → Reply × Board a) → Board a → Reply × Board a
  with_name none rest b = (refused 400 bad_name, b)
  with_name (some name) rest b = rest name b

  abbrev pub is_photo : List ℕ → Bool
  is_photo image = ltb 0 (length image) && leb (length image) (3 * 1024 * 1024)

  abbrev pub decoded : Option (List ℕ) → Text → Capture → Board a → Reply × Board a
  decoded none name c b = (refused 400 bad_photo, b)
  decoded (some image) name c b =
      if is_photo image then register name c b else (refused 400 too_large, b)

  abbrev pub photo_parts :
      Option (Text × Text) → (Text → Option (List ℕ)) → Text → Capture → Board a → Reply × Board a
  photo_parts none decode name c b = (refused 400 bad_photo, b)
  photo_parts (some (header, encoded)) decode name c b =
      if text_eq header (codes "data:image/jpeg;base64")
      then decoded (decode encoded) name c b
      else (refused 400 not_jpeg, b)

  -- `/api/player-photo`: `image` is the text field, and `decode` is `base64.b64decode`.
  unfoldable pub player_photo :
      Option Text → Option Text → (Text → Option (List ℕ)) → Capture → Board a → Reply × Board a
  player_photo value image decode c = with_name (clean_player_name value) λ name b. elim image [
    | none ↦ (refused 400 bad_photo, b)
    | some s ↦ photo_parts (split_once b',' s) decode name c b
  ]

  -- `/api/capture-player`: whether the camera had a frame in time.
  unfoldable pub capture_player : Option Text → Bool → Capture → Board a → Reply × Board a
  capture_player value has_frame c =
      with_name (clean_player_name value)
        λ name b. if has_frame then register name c b else (refused 503 no_camera, b)
