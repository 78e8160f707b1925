-- ===== src/Users.antt =====
-- Roles of users and their approval, apps/users.
pub mod Model
pub mod Roles
pub mod Approvals
pub mod SignIn
pub mod Requests
pub mod Contract
pub mod Vouchers
pub mod TwoPersons
pub mod Exclusive
mod Tests
