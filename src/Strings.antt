-- ===== src/Strings.antt =====
-- What the program uses of Go's `strings`, `strconv`, `sort` and `encoding/hex`, over bytes.
pub mod Trim
pub mod Split
pub mod Sort
pub mod Decimal
pub mod Hex
pub mod Path
pub mod Utf8
