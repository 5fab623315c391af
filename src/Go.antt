-- ===== src/Go.antt =====
-- What the source uses of Go's standard library on texts: `strings`, `strconv`. A Go string is
-- modelled as a sequence of Unicode characters, so as one that is valid UTF-8.
pub mod Strings
pub mod Strconv
pub mod Errors
pub mod Sort
pub mod Flag
pub mod Time
pub mod Tabwriter
