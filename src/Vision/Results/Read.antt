-- ===== src/Vision/Results/Read.antt =====
-- vision/detector.py: results as a model draws them, and what is read of them.
use progress_claw_machine.Shared.{
  ℕ, zero, suc, ℤ, Text, ◌≡◌, refl, Option, none, some, Option-cases, inl, inr, List, [], ◌∷◌, ◌++◌,
  map, take,
}
use progress_claw_machine.Vision.Detections.{DetectedObject}
use progress_claw_machine.Vision.Results.{
  Value, Values, number, listed, array, nil, cons, unwrap, sequence, plain_sequence, to_list,
  scalar, coordinates, Box, YoloResult, Numbers, class_name, names_or, values_of, scalar_number,
  read_box, read_boxes, boxes_of, objects_from_results,
}

module _ {N : Type 0} where
  abbrev pub numbers : List N → Values N
  numbers [] = nil
  numbers (n ∷ ns) = cons (number n) (numbers ns)

  -- Numbers in a list, inside `depth` more lists of one element.
  abbrev pub nested : ℕ → List N → Values N
  nested zero ns = numbers ns
  nested (suc depth) ns = cons (listed (nested depth ns)) nil

  unwrap-numbers : (ns : List N) → unwrap (numbers ns) ≡ numbers ns
  unfolding unwrap
  unwrap-numbers [] = refl
  unwrap-numbers (n ∷ []) = refl
  unwrap-numbers (n ∷ m ∷ ns) = refl

  unwrap-nested : (depth : ℕ) (ns : List N) → unwrap (nested depth ns) ≡ numbers ns
  unfolding unwrap
  unwrap-nested zero ns = unwrap-numbers ns
  unwrap-nested (suc depth) ns = unwrap-nested depth ns

-- How a model gives the numbers of a box: plain, in lists, or in arrays.
pub data Form : Type 0 where
  as_number as_list as_array : Form

-- What a box says.
pub record Drawn (N : Type 0) : Type 0 where
  pub form : Form
  pub class_number : N
  pub confidence_number : N
  pub corner_numbers : List N

pub record DrawnResult (N : Type 0) : Type 0 where
  pub class_names : List (ℤ × Text)
  pub drawn : Option (List (Drawn N))

module _ {N : Type 0} where
  abbrev single : Form → N → Value N
  single as_number n = number n
  single as_list n = listed (cons (number n) nil)
  single as_array n = array (some n) (listed (cons (number n) nil))

  abbrev corners_of : Form → Values N → Value N
  corners_of as_array ns = array none (listed ns)
  corners_of _ ns = listed ns

  abbrev pub box_of : ℕ → Drawn N → Box N
  box_of depth d = record {
    class_value = some (single d.form d.class_number);
    confidence_value = some (single d.form d.confidence_number);
    corners = some (corners_of d.form (nested depth d.corner_numbers));
  }

  abbrev pub result_of : ℕ → DrawnResult N → YoloResult N
  result_of depth r = record {
    names = r.class_names;
    boxes = elim r.drawn [ none ↦ none | some ds ↦ some (map (box_of depth) ds) ];
  }

  abbrev drawn_of : DrawnResult N → List (Drawn N)
  drawn_of r = elim r.drawn [ none ↦ [] | some ds ↦ ds ]

module _ (u : Numbers) where
  abbrev pub object_of : List (ℤ × Text) → ℤ → Drawn u.Number → DetectedObject
  object_of names timestamp d = record {
    class_name = class_name names (u.class_of d.class_number);
    confidence = u.confidence_of d.confidence_number;
    bounding_box = map u.coordinate_of (take 4 d.corner_numbers);
    timestamp = timestamp;
    tracking_id = none;
  }

  abbrev pub objects_of : List (ℤ × Text) → ℤ → List (DrawnResult u.Number) → List DetectedObject
  objects_of model_names timestamp [] = []
  objects_of model_names timestamp (r ∷ rs) =
      map (object_of (names_or model_names r.class_names) timestamp) (drawn_of r)
      ++ objects_of model_names timestamp rs

  coordinates-take :
      (n : ℕ) (ns : List u.Number)
      → coordinates u (take n (to_list (numbers ns))) ≡ some (map u.coordinate_of (take n ns))
  unfolding coordinates
  coordinates-take zero ns = refl
  coordinates-take (suc n) [] = refl
  coordinates-take (suc n) (m ∷ ns) = rw (coordinates-take n ns) refl

  read_box_form :
      (form : Form) (depth : ℕ) (names : List (ℤ × Text)) (timestamp : ℤ)
      (class confidence : u.Number) (ns : List u.Number)
      → let d : Drawn u.Number = record {
        form = form;
        class_number = class;
        confidence_number = confidence;
        corner_numbers = ns;
      } in
        read_box u names timestamp (box_of depth d) ≡ some (object_of names timestamp d)
  unfolding read_box scalar_number values_of scalar sequence plain_sequence
  read_box_form as_number depth names timestamp class confidence ns =
      rw (unwrap-nested depth ns, coordinates-take 4 ns) refl
  read_box_form as_list depth names timestamp class confidence ns =
      rw (unwrap-nested depth ns, coordinates-take 4 ns) refl
  read_box_form as_array depth names timestamp class confidence ns =
      rw (unwrap-nested depth ns, coordinates-take 4 ns) refl

  read_box-box_of :
      (depth : ℕ) (names : List (ℤ × Text)) (timestamp : ℤ) (d : Drawn u.Number)
      → read_box u names timestamp (box_of depth d) ≡ some (object_of names timestamp d)
  read_box-box_of depth names timestamp d =
      read_box_form d.form depth names timestamp d.class_number d.confidence_number d.corner_numbers

  read_boxes-box_of :
      (depth : ℕ) (names : List (ℤ × Text)) (timestamp : ℤ) (ds : List (Drawn u.Number))
      → read_boxes u names timestamp (map (box_of depth) ds)
        ≡ some (map (object_of names timestamp) ds)
  unfolding read_boxes
  read_boxes-box_of depth names timestamp [] = refl
  read_boxes-box_of depth names timestamp (d ∷ ds) =
      rw (read_box-box_of depth names timestamp d, read_boxes-box_of depth names timestamp ds) refl

  boxes_of-result_of :
      (depth : ℕ) (r : DrawnResult u.Number)
      → boxes_of u (result_of depth r) ≡ map (box_of depth) (drawn_of r)
  boxes_of-result_of depth r = elim (Option-cases r.drawn) [
    | inl missing ↦ rw missing refl
    | inr (ds, there) ↦ rw there refl
  ]

  -- The objects of results whose boxes hold a number for the class, one for the confidence and a
  -- list of numbers for the corners, inside however many lists of one element, each box as plain
  -- numbers with a list of corners, as lists, or as arrays: one object
  -- for each box, in order, by the name that its result's table has for the class, or the model's
  -- table if the result has none, with the first four corners, and the given time.
  pub objects_from_results-result_of :
      (depth : ℕ) (model_names : List (ℤ × Text)) (timestamp : ℤ) (rs : List (DrawnResult u.Number))
      → objects_from_results u model_names timestamp (map (result_of depth) rs)
        ≡ some (objects_of model_names timestamp rs)
  unfolding objects_from_results
  objects_from_results-result_of depth model_names timestamp [] = refl
  objects_from_results-result_of depth model_names timestamp (r ∷ rs) =
      rw
        (
          boxes_of-result_of depth r,
          read_boxes-box_of depth (names_or model_names r.class_names) timestamp (drawn_of r),
          objects_from_results-result_of depth model_names timestamp rs,
        )
        refl
