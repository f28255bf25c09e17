-- ===== src/Shell.antt =====
-- The shell of the application: the title of the window, delayed calls, what is shown to whom, and where
-- a user begins.
pub mod Title
pub mod Debounce
pub mod Entry
