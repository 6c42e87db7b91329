-- ===== src/Profiling.antt =====
-- The profile samples on their way to the spool: `Chunks` the batches of writeProfileSamples
-- (profiling.go), and `Recorder` the bounded buffer of measured waits (profile_io.go).
pub mod Chunks
pub mod Recorder
pub mod Symbols
pub mod Wait
pub mod Sampler
pub mod Wall
pub mod Normalize
pub mod Io
pub mod Flush
mod Tests
