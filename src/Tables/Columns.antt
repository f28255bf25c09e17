-- ===== src/Tables/Columns.antt =====
-- The columns of the tables (`columns` of the pages in web/src/components).
pub mod Records
pub mod Users
pub mod Machines
