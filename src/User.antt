-- ===== src/User.antt =====
-- The userspace side, in user/: the helpers that the tools share, and the runner that measures.
pub mod Image
pub mod Threshold
pub mod Pgm
pub mod Runner
pub mod Crc
pub mod Calls
pub mod Queues
pub mod Csv
pub mod Quiet
pub mod CaptureM2m
