-- ===== src/Tests/Eyes.antt =====
-- The theorems about the detector and the streams at concrete inputs.
use progress_claw_machine.Shared.{
  ℕ, ◌≡◌, ℤ, pos, codes, true, none, some, List, [], ◌∷◌, map, arith,
}
use progress_claw_machine.Shared.Action.{err, ok}
use progress_claw_machine.Shared.Decimal.{show_ℤ}
use progress_claw_machine.Vision.Results.{Numbers, class_name, objects_from_results}
use progress_claw_machine.Vision.Results.Read.{
  DrawnResult, as_number, as_list, result_of, objects_from_results-result_of,
}
use progress_claw_machine.Vision.Detector.{Outside, new_detector}
use progress_claw_machine.Vision.Detector.Load.{counting, detect_all, detect_all_loads}
use progress_claw_machine.Vision.Frames.{Frame, Call, new_queue, put_frame, clear_frame, IsNumbered}
use progress_claw_machine.Vision.Inference.Order.{Rising}
use progress_claw_machine.Vision.Threads.{
  new_threaded, start, stop_thread, is_alive, new_service, started, stopping,
}
use progress_claw_machine.Vision.Threads.Single.{IsSingle, IsSingle-start}
use progress_claw_machine.Vision.Stream.{mjpeg_frames}
use progress_claw_machine.Vision.Stream.Delivery.{
  Arrival, calls_of, IsBehind, mjpeg_frames_delivered,
}

abbrev numbers : Numbers
numbers = record {
  Number = ℕ;
  zero_number = 0;
  class_of = λ n. pos n;
  confidence_of = λ n. n;
  coordinate_of = λ n. pos n;
}

-- A person, with a fifth corner that is not kept, and a class that the table does not have.
abbrev drawn : List (DrawnResult ℕ)
drawn =
    record {
      class_names = (pos 0, codes "person") ∷ [];
      drawn = some (
          record {
            form = as_number;
            class_number = 0;
            confidence_number = 9000;
            corner_numbers = 1 ∷ 2 ∷ 3 ∷ 4 ∷ 5 ∷ [];
          }
          ∷ record {
            form = as_list;
            class_number = 7;
            confidence_number = 5000;
            corner_numbers = [];
          }
          ∷ []);
    }
    ∷ record { class_names = []; drawn = none }
    ∷ []

objects_from_results-result_of_example :
    objects_from_results numbers [] (pos 5) (map (result_of 2) drawn)
    ≡ some (
        record {
          class_name = codes "person";
          confidence = 9000;
          bounding_box = pos 1 ∷ pos 2 ∷ pos 3 ∷ pos 4 ∷ [];
          timestamp = pos 5;
          tracking_id = none;
        }
        ∷ record {
          class_name = codes "7";
          confidence = 5000;
          bounding_box = [];
          timestamp = pos 5;
          tracking_id = none;
        }
        ∷ [])
unfolding class_name show_ℤ
objects_from_results-result_of_example = objects_from_results-result_of numbers 2 [] (pos 5) drawn

-- No model can be built.
abbrev broken : Outside
broken = record {
  World = ℤ;
  Model = ℕ;
  Image = ℕ;
  numbers = numbers;
  names = λ model. [];
  load = λ path w. (err (codes "no file"), w);
  has_opencv = true;
  decode = λ bytes. some 0;
  predict = λ model image w. (ok [], w);
  time = λ w. (pos 0, w);
}

detect_all_loads_example :
    (detect_all
      (counting broken)
      (([], none) ∷ ([], some (pos 3)) ∷ [])
      (new_detector (counting broken) (codes "yolov8n.pt") (pos 0, 0))).world.1
    ≡ 1
detect_all_loads_example =
    detect_all_loads broken (codes "yolov8n.pt") (pos 0) (([], none) ∷ ([], some (pos 3)) ∷ [])

abbrev arrivals : List Arrival
arrivals =
    record { before = put_frame (1 ∷ []) (pos 1) ∷ []; bytes = 2 ∷ []; timestamp = pos 2 }
    ∷ record { before = clear_frame ∷ []; bytes = 3 ∷ []; timestamp = pos 3 }
    ∷ []

nothing-IsBehind : IsBehind none new_queue
unfolding IsNumbered
nothing-IsBehind = (tt, omega arith)

-- Rounds of which the second brings nothing new.
abbrev rounds : List (List Call)
rounds = (put_frame [] (pos 1) ∷ []) ∷ [] ∷ (put_frame [] (pos 2) ∷ []) ∷ []

mjpeg_frames_delivered_example :
    (map (λ (f : Frame). f.bytes) (mjpeg_frames (map calls_of arrivals) none new_queue)
      ≡ (2 ∷ []) ∷ (3 ∷ []) ∷ [])
    × Rising 0 (map (λ (f : Frame). f.sequence) (mjpeg_frames rounds none new_queue))
mjpeg_frames_delivered_example =
    mjpeg_frames_delivered arrivals rounds none new_queue nothing-IsBehind

-- Started, and stopped without the thread having ended.
IsSingle-start_example :
    IsSingle (stop_thread (start new_threaded))
    × ((start (stop_thread (stop_thread (start new_threaded)))).stop_event ≡ true)
unfolding start stop_thread is_alive
IsSingle-start_example = IsSingle-start (stopping (started new_service))
