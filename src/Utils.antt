-- ===== src/Utils.antt =====
-- The helpers of web/src/utils (utils.js, strings.js, times.js).
pub mod Times
pub mod Collections
pub mod Durations
pub mod Sizes
