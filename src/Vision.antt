-- ===== src/Vision.antt =====
-- vision/: frames, detections and the caches that the other services read.
pub mod Detections
pub mod Frames
pub mod Inference
pub mod Capture
pub mod Results
pub mod Detector
pub mod Stream
pub mod Threads
pub mod Encode
