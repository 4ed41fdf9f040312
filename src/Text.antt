-- ===== src/Text.antt =====
-- Texts: byte strings with equality, hexadecimal and decimal notation.
pub mod Bytes
pub mod Hex
pub mod Decimal
