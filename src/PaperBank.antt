-- ===== src/PaperBank.antt =====
-- The construction of examination papers from the item bank, apps/itembank/services.py.
pub mod Select
pub mod Progress
pub mod Coverage
pub mod Choice
pub mod Checks
pub mod Construct
pub mod Manual
pub mod Draw
pub mod Variants
pub mod Generate
pub mod Rules
mod Tests
