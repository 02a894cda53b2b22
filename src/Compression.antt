-- ===== src/Compression.antt =====
-- src/compression: integer codings. A byte slice is a list of numbers.
pub mod VByte
pub mod Delta
pub mod IntegerBlock
