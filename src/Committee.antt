-- ===== src/Committee.antt =====
-- The committee app, apps/committee: its meetings, from the schedule to the signed minutes.
pub mod Model
pub mod World
pub mod Attendance
pub mod Meetings
pub mod Requests
pub mod Contract
pub mod History
pub mod Conflicts
mod Tests
