-- ===== src/Rpcsplitter/Types.antt =====
-- The encodings of rpcsplitter/types/: hexadecimal texts of bytes and numbers, and block numbers.
pub mod Hex
pub mod HexBytes
pub mod HexNumbers
pub mod Blocks
pub mod Number
pub mod BlockNames
pub mod Json
pub mod Fixed
