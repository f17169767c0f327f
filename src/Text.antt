-- ===== src/Text.antt =====
-- What the program uses of Go's `strings`, `bufio`, `strconv` and `fmt`, on byte sequences.
pub mod Space
pub mod Search
pub mod Lines
pub mod Decimal
