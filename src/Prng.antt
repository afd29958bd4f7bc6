-- ===== src/Prng.antt =====
-- crates/mytilus-prng/src/lib.rs: rand/random and the *rand48 family.
-- The statics are passed in and returned; a word of w bits is a number below 2 ^ w.
pub mod Lcg
pub mod Period
pub mod Cycles
pub mod Rand48
pub mod Random
