-- ===== src/Libc.antt =====
-- lib/libc/string.c, a child module for each group of functions.
pub mod Block
pub mod Scan
pub mod Number
pub mod Copy
pub mod Compare
