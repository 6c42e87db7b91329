-- ===== src/Text.antt =====
-- The functions of Go's `strings` that more than one part of the program calls, on bytes.
pub mod Trim
pub mod Split
pub mod Edged
pub mod Printable
pub mod Within
pub mod Lower
pub mod Utf8
pub mod Base64
pub mod Fold
