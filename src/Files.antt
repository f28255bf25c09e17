-- ===== src/Files.antt =====
-- The file manager (web/src/components/devops/FileSystem.js) with the path helper of
-- web/src/utils/utils.js.
pub mod Paths
pub mod Listing
pub mod Order
pub mod Manager
pub mod Forms
pub mod Rows
pub mod Upload
pub mod Laws
pub mod Sorting
pub mod Sending
pub mod Own
