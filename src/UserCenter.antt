-- ===== src/UserCenter.antt =====
-- drogon/usercenter-cpp-backend: accounts with a password, and a login state in the session.
pub mod Model
pub mod Service
pub mod Characters
pub mod Controller
pub mod Contract
pub mod Registration
pub mod Accounts
pub mod Login
pub mod Safety
pub mod Access
pub mod Session
mod Memory
mod Tests
