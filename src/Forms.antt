-- ===== src/Forms.antt =====
-- The forms of the pages' dialogues, apart from the asset's.
pub mod Role
pub mod Storage
pub mod Menus
pub mod Opening
pub mod Renewal
pub mod Loaders
pub mod Items
pub mod Kinds
