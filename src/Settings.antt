-- ===== src/Settings.antt =====
-- The page of the settings (web/src/components/setting/Setting.js).
pub mod Properties
pub mod Page
pub mod Laws
pub mod Tabs
pub mod Shown
