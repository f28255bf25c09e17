-- ===== src/Views.antt =====
-- What the pages show: the items of the forms and the columns of the tables.
pub mod Items
pub mod Columns
