-- ===== src/Spool.antt =====
-- spool/segment.go: the framed, append-only spool log. `Frame` is the format, `Names` the names of
-- segments, `Directory` the files of one spool directory, and `Segments` the writer and the reader.
pub mod Crc
pub mod Frame
pub mod Names
pub mod Directory
pub mod Segments
mod Tests
