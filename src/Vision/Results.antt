-- ===== src/Vision/Results.antt =====
-- vision/detector.py: how the results of the YOLO model are read. A value of a result is a number, a
-- list, a tuple or an array of NumPy or PyTorch, of which the code uses `item()`, none if it raises, and
-- `tolist()`. `N` are Python's numbers, with the conversions to the units of the detections.
pub mod Read
use progress_claw_machine.Shared.{
  ℕ, ℤ, ◌==◌, pos, negsuc, Text, Bool, false, Option, none, some, List, [], ◌∷◌, ◌++◌, take,
  if◌then◌else◌,
}
use progress_claw_machine.Shared.Decimal.{show_ℤ}
use progress_claw_machine.Vision.Detections.{DetectedObject}

mutual
  pub data Value (N : Type 0) : Type 0 where
    number : N → Value N
    listed : Values N → Value N
    tupled : Values N → Value N
    array : Option N → Value N → Value N

  pub data Values (N : Type 0) : Type 0 where
    nil : Values N
    cons : Value N → Values N → Values N

module _ {N : Type 0} where
  -- The `while` of `_sequence`: a list whose only element is a list is that list.
  unfoldable pub unwrap : Values N → Values N
  unwrap (cons (listed vs) nil) = unwrap vs
  unwrap vs = vs

  abbrev to_list : Values N → List (Value N)
  to_list nil = []
  to_list (cons v vs) = v ∷ to_list vs

  plain_sequence : Value N → List (Value N)
  unfolding unwrap
  plain_sequence (listed vs) = to_list (unwrap vs)
  plain_sequence (tupled vs) = to_list vs
  plain_sequence v = v ∷ []

  -- `_sequence`
  unfoldable pub sequence : Value N → List (Value N)
  unfolding plain_sequence
  sequence (array item as_list) = plain_sequence as_list
  sequence v = plain_sequence v

  abbrev item_or : Value N → Option (Value N)
  item_or (array none as_list) = none
  item_or (array (some n) as_list) = some (number n)
  item_or v = some v

  abbrev first_or : Value N → List (Value N) → Option (Value N)
  first_or v [] = some v
  first_or v (first ∷ _) = item_or first

  -- `_scalar`
  unfoldable pub scalar : Value N → Option (Value N)
  unfolding sequence
  scalar (array none as_list) = none
  scalar (array (some n) as_list) = some (number n)
  scalar v = first_or v (sequence v)

  -- `float(value)`, and the number that `int(value)` truncates
  abbrev to_number : Value N → Option N
  to_number (number n) = some n
  to_number (array item as_list) = item
  to_number v = none

-- The attributes of a box and of a result that the code reads, each of which may be missing.
pub record Box (N : Type 0) : Type 0 where
  pub class_value : Option (Value N)
  pub confidence_value : Option (Value N)
  pub corners : Option (Value N)

pub record YoloResult (N : Type 0) : Type 0 where
  pub names : List (ℤ × Text)
  pub boxes : Option (List (Box N))

abbrev same_ℤ : ℤ → ℤ → Bool
same_ℤ (pos m) (pos n) = m == n
same_ℤ (negsuc m) (negsuc n) = m == n
same_ℤ _ _ = false

-- `str(names.get(class_id, class_id))`
unfoldable pub class_name : List (ℤ × Text) → ℤ → Text
class_name [] id = show_ℤ id
class_name ((key, name) ∷ names) id =
    let rest = class_name names id in if same_ℤ key id then name else rest

-- `getattr(result, "names", {}) or getattr(self._model, "names", {})`
abbrev pub names_or : List (ℤ × Text) → List (ℤ × Text) → List (ℤ × Text)
names_or model_names [] = model_names
names_or model_names (n ∷ names) = n ∷ names

infixl 10 ◌>>=◌
abbrev ◌>>=◌ : {A B : Type 0} → Option A → (A → Option B) → Option B
none >>= g = none
some a >>= g = g a

-- `int`, and the units of a confidence and of a coordinate.
pub record Numbers : Type 1 where
  pub Number : Type 0
  pub zero_number : Number
  pub class_of : Number → ℤ
  pub confidence_of : Number → ℕ
  pub coordinate_of : Number → ℤ

module _ (u : Numbers) where
  -- `getattr(…, 0)` and its `_scalar`, as a number
  abbrev pub scalar_number : Option (Value u.Number) → Option u.Number
  unfolding scalar
  scalar_number none = scalar (number u.zero_number) >>= to_number
  scalar_number (some v) = scalar v >>= to_number

  abbrev pub values_of : Option (Value u.Number) → List (Value u.Number)
  unfolding sequence
  values_of none = []
  values_of (some v) = sequence v

  coordinates : List (Value u.Number) → Option (List ℤ)
  coordinates [] = some []
  coordinates (v ∷ vs) = do n ← to_number v; cs ← coordinates vs; some (u.coordinate_of n ∷ cs)

  unfoldable pub read_box : List (ℤ × Text) → ℤ → Box u.Number → Option DetectedObject
  unfolding coordinates class_name
  read_box names timestamp box = do
    class_number ← scalar_number box.class_value
    confidence ← scalar_number box.confidence_value
    corners ← coordinates (take 4 (values_of box.corners))
    some record {
      class_name = class_name names (u.class_of class_number);
      confidence = u.confidence_of confidence;
      bounding_box = corners;
      timestamp = timestamp;
      tracking_id = none;
    }

  unfoldable pub read_boxes :
      List (ℤ × Text) → ℤ → List (Box u.Number) → Option (List DetectedObject)
  unfolding read_box
  read_boxes names timestamp [] = some []
  read_boxes names timestamp (b ∷ bs) = do
    o ← read_box names timestamp b
    os ← read_boxes names timestamp bs
    some (o ∷ os)

  abbrev pub boxes_of : YoloResult u.Number → List (Box u.Number)
  boxes_of r = elim r.boxes [ none ↦ [] | some bs ↦ bs ]

  -- `_objects_from_results`, none if it raises
  unfoldable pub objects_from_results :
      List (ℤ × Text) → ℤ → List (YoloResult u.Number) → Option (List DetectedObject)
  unfolding read_boxes
  objects_from_results model_names timestamp [] = some []
  objects_from_results model_names timestamp (r ∷ rs) = do
    os ← read_boxes (names_or model_names r.names) timestamp (boxes_of r)
    more ← objects_from_results model_names timestamp rs
    some (os ++ more)
