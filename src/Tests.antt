-- ===== src/Tests.antt =====
-- Tests of the definitions, and the theorems applied to concrete inputs.
pub mod Frames
pub mod Metadata
pub mod Framebuffers
pub mod Sources
pub mod Contexts
pub mod Runs
pub mod Userspace
pub mod Measuring
pub mod Capturing
