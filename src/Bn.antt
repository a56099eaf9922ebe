-- ===== src/Bn.antt =====
-- bn/: decimal numbers over big integers. A big integer is an ℤ, so nothing of it wraps around; a
-- precision is a uint8, which the theorems that need its range state as a bound.
-- The conversions from and to big.Float, and the dispatch on `any`, are not modelled.
pub mod Rounding
pub mod FixedPoint
pub mod Encoding
pub mod FloatPoint
pub mod IntNumber
pub mod Examples
