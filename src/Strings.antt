-- ===== src/Strings.antt =====
-- The parts of Go's standard library that the program applies to its names and keys: strconv,
-- strings and path/filepath, over byte strings. Only ASCII white space is trimmed.
pub mod Decimal
pub mod Split
pub mod FilePath
