-- ===== src/Decode/Checked.antt =====
-- What a decoded and validated message is known to satisfy.
pub mod Guards
pub mod Levels
pub mod Bars
pub mod Panics
