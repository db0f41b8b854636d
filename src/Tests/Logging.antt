-- ===== src/Tests/Logging.antt =====
-- The theorem about the configuration of logging at a concrete record.
use progress_claw_machine.Shared.{◌≡◌, refl, codes, text_eq, starts_with, List, [], ◌∷◌}
use progress_claw_machine.Logging.{
  LogRecord, standard_output, system_log, safety_log, written, handled, passes, configure_logging,
  configure_vision_logging,
}
use progress_claw_machine.Logging.Handlers.{times}
use progress_claw_machine.Logging.Once.{
  fresh_root, Configuring, service_logging, vision_logging, configure_all, times-configure_all,
}

abbrev refusal : LogRecord
refusal = record {
  level = 30;
  name = codes "progress_claw.controller";
  event = codes "safety_rejected";
}

abbrev calls : List Configuring
calls = vision_logging ∷ service_logging ∷ service_logging ∷ []

where_to :
    written refusal (configure_all calls fresh_root)
    ≡ standard_output ∷ system_log ∷ safety_log ∷ []
unfolding written handled passes configure_all configure_logging configure_vision_logging text_eq
    starts_with
where_to = refl

times-configure_all_example :
    times safety_log (written refusal (configure_all calls fresh_root)) ≡ 1
unfolding starts_with
times-configure_all_example = times-configure_all calls refusal safety_log
