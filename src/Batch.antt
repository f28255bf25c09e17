-- ===== src/Batch.antt =====
-- Commands for several assets at once: the choice of the assets
-- (web/src/components/devops/BatchCommand.js) and their terminals
-- (web/src/components/devops/ExecuteCommand.js).
pub mod Waiting
pub mod Terminals
pub mod Choice
pub mod Delivery
pub mod Single
pub mod Once
