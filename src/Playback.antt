-- ===== src/Playback.antt =====
-- The player of a desktop session's recording (web/src/components/session/GuacdPlayback.js), and an
-- older one (Playback.js there).
pub mod Player
pub mod SpeedUp
pub mod Older
