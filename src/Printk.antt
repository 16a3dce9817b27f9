-- ===== src/Printk.antt =====
-- kernel/printk.c, a child module for each part.
pub mod Digits
pub mod Decimal
pub mod Output
pub mod Spec
pub mod Format
pub mod Render
pub mod Vsnprintf
pub mod Decode
pub mod Str
pub mod Number
