-- ===== src/Text.antt =====
-- What the source uses of Go's standard library for text: `strings`, `strconv`, `encoding/hex`,
-- and the text and byte forms of `big.Int`.
pub mod Decimal
pub mod Hex
pub mod BigEndian
pub mod Split
