-- ===== src/SittingApp.antt =====
-- The app of the examination cycles: configuration of a cycle, the T-30 lock, amendments, snapshots.
pub mod Model
pub mod World
pub mod Save
pub mod Validate
pub mod Snapshot
pub mod Lifecycle
pub mod Papers
pub mod Amend
pub mod Requests
pub mod Effects
pub mod Frame
pub mod AmendEffects
pub mod PaperEffects
pub mod Ready
pub mod Deletion
pub mod Commits
pub mod Graph
pub mod Serve
pub mod Soundness
pub mod Stability
pub mod Pitfalls
pub mod Audited
pub mod Monitor
pub mod Deadline
pub mod Blueprint
pub mod Reminders
pub mod Fixtures
mod Tests
mod TaskTests
