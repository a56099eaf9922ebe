-- ===== src/Hcl.antt =====
-- hcl/: the decoder of blocks into structs, and the variables of hcl/ext/
pub mod Variables
pub mod Result
pub mod Include
pub mod Field
pub mod Meta
pub mod Value
pub mod Decode
pub mod Encode
pub mod Mapper
pub mod Examples
