-- ===== src/Lib.antt =====
-- A model of the Progress Claw machine's Python services, with the theorems that make them correct.
--
-- controller/ is the safety boundary: dashboard and AI code submit commands to a runtime controller,
-- which checks them, keeps the machine state and alone talks to the hardware through a transport.
--   Controller/Machine   controller/state.py, controller/models.py: state and commands
--   Controller/Safety    controller/safety/validator.py: the checks
--   Controller/Adapter   the transport that the controller calls, as an interface
--   Controller/Runtime   controller/core/runtime_controller.py: each method an action on the
--                        controller. An auto-stop thread is a pending timer; Runtime/Steps has the
--                        calls and the timers that wake up as a step relation. A transport may raise, as
--                        the serial one can; no `except SafetyError` of the dashboard catches that
--   Controller/Gpio      controller/adapters/gpio_adapter.py: the transport over GPIO pins
--   Controller/Serial    controller/adapters/arduino_adapter.py: the transport over a serial port
-- vision/ gives detections; game/ chooses a state of the game from them and from the controller's
-- status; recommendation/ advises on that state. analytics/ stores events, cloud/ sends the status to
-- Supabase, and dashboard/backend/ serves the web pages.
--   Vision/Detections, Vision/Frames   vision/detection_models.py, vision/detection_cache.py,
--                        vision/frame_queue.py
--   Vision/Capture       vision/camera_manager.py: the capture thread over a script of what OpenCV gives
--   Vision/Detector, Vision/Results   vision/detector.py: the model, loaded when it is first needed, and
--                        the reading of its results
--   Vision/Stream        vision/stream_service.py and vision/snapshot_service.py: what a client is sent
--   Vision/Threads, Vision/Encode   the threads of vision/camera_manager.py and of
--                        vision/detection_service.py, and the encoding of frames of the former
--   Vision/Inference     vision/detection_service.py: the inference thread, whose rounds name the calls
--                        of the producer that fall between its steps
--   Game                 game/: the records, the rules, the cache and `evaluate` of the engine.
--                        Engine/Priorities is about one choice, Engine/History about many
--   Recommendation       recommendation/: the same parts; Engine/Timing is about its choice,
--                        Engine/Unbroken about since when its conditions hold
--   Cloud                cloud/: errors, records and health, and the synchronisation service over a
--                        record of what it calls of the SDK and the clocks (Service); cloud/diagnostics.py
--                        and cloud/routes.py are Diagnostics and Routes
--   Dashboard/Auth       dashboard/backend/admin_auth.py
--   Dashboard/Wifi       dashboard/backend/wifi_control.py, the helper's answer an argument
--                        Manager has its two managers and the choice between them
--   Dashboard/App        dashboard/backend/app.py and the health check of routes_system.py beside it
--   Dashboard/Panel      dashboard/backend/dashboard_state.py: credits and claw power
--   Dashboard/Board      dashboard/backend/dashboard_state.py: the shared state, with the controller that
--                        it owns. Play and Settings are dashboard/backend/routes_api.py, Players is
--                        dashboard/backend/routes_player.py; Touch is about a play of the controller
--                        and the dashboard's view of it, Credit about what a play costs
--   Dashboard/Admin      dashboard/backend/routes_admin.py with kiosk_control.py and system_power.py
--                        beside it: protected routes over the session and the board. Steps has every
--                        request, and every timer that wakes up, as a step relation on the site
--   Dashboard/Photos     dashboard/backend/dashboard_state.py: what is written of photos and counted in
--                        them, and the stream of the dashboard's camera
--   Dashboard/Camera     dashboard/backend/dashboard_state.py: the camera worker's cutting of frames
--   Analytics/Store      analytics/store.py and analytics/models.py, date parsing an argument; Summary
--                        is the summary of the store
--   Analytics/Service    analytics/service.py: the collectors, with the keys under which they offer
--                        events, whose details are in Analytics/Details; Api is analytics/api.py
-- config/ and the environment are read in several places:
--   Config/Yaml          the readers of vision/camera_manager.py, recommendation/engine.py and
--                        game/state_engine.py
--   Config/Loaders       the functions of these three and of vision/detector.py that pick the fields
--   Config/Env           from_env of the controller and its adapters, and the .env reader of
--                        cloud/config.py
--   Config/Supabase      from_env of cloud/config.py
--   Logging              services/logging/structured.py, with the configurations of logging in
--                        vision/stream_service.py, game/state_engine.py and recommendation/engine.py
--   Maintenance/Retention   scripts/maintenance/audit_data_retention.py
-- Shared has what the parts share: numbers, texts, decimal printing, and actions that may raise.
-- Tests has the theorems at concrete inputs.
--
-- Conventions. A method that mutates an object and may raise is an action: it takes the object and
-- gives a result beside the object that it leaves. A lock makes a method one step, so the methods of
-- a locked object are atomic here. Log output is left out. Clock readings and other floats are
-- integers at a fixed scale: seconds in milliseconds. Python's int is an integer without bound; where
-- a value cannot be negative it is a natural number. Text is the list of its code points. Decimal
-- printing recurs on fuel n + 1, which the read-back theorem shows to be enough.
-- gpiozero is a record of the calls that the adapter makes, each of which may fail; the laws of its
-- outputs are a hypothesis of the theorems about pins, which a simulated device meets.
-- pyserial with the file system, OpenCV and the YOLO model are arguments in the same way, and so are
-- what the system's helpers answer, what a directory lists, base64 decoding, and Python's float.
-- The loop that cuts camera frames recurs on fuel, one more than the bytes of the buffer: each frame
-- takes bytes away. Requests come parsed; what a field that is not a number does is left to Flask.
--
-- Not modelled: the entry point, the web pages and the building of the Flask applications, drawing on
-- photos, the processes behind the camera worker, and the printing of JSON and CSV: they are device, image and framework calls around this core.
pub mod Analytics
pub mod Cloud
pub mod Config
pub mod Controller
pub mod Dashboard
pub mod Game
pub mod Logging
pub mod Maintenance
pub mod Recommendation
pub mod Shared
pub mod Vision
pub mod Tests
