-- ===== src/Str.antt =====
-- crates/mytilus-string/src/str_fns.rs: the `str*` functions and `memchr`/`memrchr`.
pub mod Length
pub mod Find
pub mod Compare
pub mod Copy
pub mod Strerror
pub mod Search
pub mod Tokens
pub mod Casecmp
