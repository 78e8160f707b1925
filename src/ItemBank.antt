-- ===== src/ItemBank.antt =====
-- The item bank, apps/itembank: the life of an item from its draft to the panel.
pub mod Model
pub mod World
pub mod Drafts
pub mod Review
pub mod Panel
pub mod Requests
pub mod Contract
pub mod History
pub mod Restore
pub mod Unresolved
pub mod Vault
pub mod DualControl
mod Tests
