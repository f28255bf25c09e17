-- ===== src/Tables.antt =====
-- The pages that show a table of the server's records (web/src/components): what each asks the
-- server for, and the dialogue in which a record is made or changed.
pub mod Paging
pub mod Requests
pub mod Dialogue
pub mod Saves
pub mod Editing
pub mod Actions
pub mod Execution
pub mod Bindings
pub mod Authorising
pub mod Toolbars
pub mod Cells
pub mod Marks
pub mod Columns
pub mod Searches
pub mod Lost
