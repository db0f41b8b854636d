-- ===== src/Vision/Detector/Load.antt =====
-- vision/detector.py: how often the model is loaded.
use progress_claw_machine.Shared.{
  ℕ, ℤ, Text, ◌≡◌, refl, Option, none, is_some, ◌||◌, ◌+◌, List, [], ◌∷◌, Bool, true, arith,
}
use progress_claw_machine.Shared.Action.{Result, ok, err, Action, proceed}
use progress_claw_machine.Vision.Results.{YoloResult}
use progress_claw_machine.Vision.Detector.{
  Outside, Detector, new_detector, Failed, load_model, decode_frame, predict, timestamp_or,
  predicted, detect, nonempty_error,
}

-- Whether the model was built, or the attempt failed.
abbrev tried : {o : Outside} → Detector o → Bool
tried d = is_some d.model || is_some (nonempty_error d.load_error)

-- The same outside, with the number of times that a model was built.
abbrev pub counting : Outside → Outside
counting o = record {
  World = o.World × ℕ;
  Model = o.Model;
  Image = o.Image;
  numbers = o.numbers;
  names = o.names;
  load = λ path w. let (r, v) = o.load path w.0 in (r, (v, w.1 + 1));
  has_opencv = o.has_opencv;
  decode = o.decode;
  predict = λ model image w. let (r, v) = o.predict model image w.0 in (r, (v, w.1));
  time = λ w. let (t, v) = o.time w.0 in (t, (v, w.1));
}

module _ (o : Outside) where
  -- The frames that are given to the detector, with their times.
  unfoldable pub detect_all : List (List ℕ × Option ℤ) → Detector o → Detector o
  detect_all [] d = d
  detect_all ((bytes, at) ∷ frames) d = detect_all frames (detect o bytes at d).1

module _ (o : Outside) where
  abbrev loads : Detector (counting o) → ℕ
  loads d = d.world.1

  -- No model is built again.
  record IsTried (d : Detector (counting o)) : Type 0 where
    once : loads d ≡ 1
    settled : tried d ≡ true

  load_model-IsTried :
      (d : Detector (counting o)) → IsTried d → IsTried (load_model (counting o) d).1
  unfolding load_model
  load_model-IsTried d h = ground arith

  load_model_first :
      (d : Detector (counting o))
      → d.model ≡ none
      → d.load_error ≡ none
      → loads d ≡ 0
      → IsTried (load_model (counting o) d).1
  unfolding load_model
  load_model_first d m e n = ground arith

  predicted_keeps :
      (r : Result Text (List (YoloResult o.numbers.Number))) (d : Detector (counting o))
      → IsTried d
      → IsTried (predicted (counting o) r d).1
  unfolding predicted
  predicted_keeps (ok results) d h = h
  predicted_keeps (err text) d h = h

  predict_keeps :
      (model : o.Model) (image : o.Image) (d : Detector (counting o))
      → IsTried d
      → IsTried (predict (counting o) model image d).1
  unfolding predict predicted
  predict_keeps model image d h =
      let (r, w) = o.predict model image d.world.0 in
      predicted_keeps r (record d { world = (w, d.world.1) })
        (record { once = h.once; settled = h.settled })

  timestamp_keeps :
      (at : Option ℤ) (d : Detector (counting o))
      → IsTried d
      → IsTried (timestamp_or (counting o) at d).1
  unfolding timestamp_or
  timestamp_keeps at d h = ground arith

  bind_keeps :
      {A B : Type 0} (r : Result (Failed (counting o)) A) (d : Detector (counting o))
      (f : A → Action (Failed (counting o)) (Detector (counting o)) B)
      → IsTried d
      → ((a : A) (t : Detector (counting o)) → IsTried t → IsTried (f a t).1)
      → IsTried (proceed r d f).1
  bind_keeps (ok a) d f h g = g a d h
  bind_keeps (err e) d f h g = h

  -- What follows the load of the model leaves it and the count alone.
  detect_keeps :
      (bytes : List ℕ) (at : Option ℤ) (d : Detector (counting o))
      → IsTried (load_model (counting o) d).1
      → IsTried (detect (counting o) bytes at d).1
  unfolding detect
  detect_keeps bytes at d h = bind_keeps (load_model (counting o) d).0 _ _ h (λ model t h1.
      bind_keeps (decode_frame (counting o) bytes) _ _ h1 (λ image u h2.
        bind_keeps (predict (counting o) model image u).0 _ _ (predict_keeps model image u h2)
          (λ results v h3.
            bind_keeps (timestamp_or (counting o) at v).0 _ _ (timestamp_keeps at v h3)
              (λ t w h4. h4))))

  detect_all-IsTried :
      (frames : List (List ℕ × Option ℤ)) (d : Detector (counting o))
      → IsTried d
      → IsTried (detect_all (counting o) frames d)
  unfolding detect_all
  detect_all-IsTried [] d h = h
  detect_all-IsTried ((bytes, at) ∷ frames) d h =
      detect_all-IsTried frames _ (detect_keeps bytes at d (load_model-IsTried d h))

  -- Over any frames that a new detector is given, whatever fails on the way, the model is built once:
  -- not before the first frame, and never again, even if it could not be built.
  pub detect_all_loads :
      (path : Text) (world : o.World) (frames : List (List ℕ × Option ℤ))
      → (detect_all (counting o) frames (new_detector (counting o) path (world, 0))).world.1
        ≡ (elim frames [ [] ↦ 0 | f ∷ fs ↦ 1 ])
  unfolding detect_all
  detect_all_loads path world [] = refl
  detect_all_loads path world ((bytes, at) ∷ frames) =
      (detect_all-IsTried frames _
        (detect_keeps bytes at _ (load_model_first _ refl refl refl))).once
