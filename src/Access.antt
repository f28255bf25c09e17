-- ===== src/Access.antt =====
-- The pages that a user works with a remote machine on: the terminal (Message.js, Term.js of
-- web/src/components/access), its monitor (web/src/components/session/TermMonitor.js), the desktop
-- (web/src/components/access/Guacd.js) and its monitor
-- (web/src/components/session/GuacdMonitor.js).
pub mod Message
pub mod Terminal
pub mod Transcript
pub mod Closing
pub mod Desktop
pub mod Keys
pub mod Display
pub mod Stats
pub mod Toolbar
pub mod Input
