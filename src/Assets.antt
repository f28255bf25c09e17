-- ===== src/Assets.antt =====
-- The assets: the form of one (web/src/components/asset/AssetModal.js) and the table of all
-- (web/src/components/asset/Asset.js).
pub mod Fields
pub mod Form
pub mod Basic
pub mod Advanced
pub mod Showing
pub mod Rendering
pub mod Switches
pub mod Loading
pub mod Checks
pub mod Testing
pub mod Tasks
