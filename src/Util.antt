-- ===== src/Util.antt =====
-- drogon/hmdp-cpp-backend/src/hmdp/source/utils, and the part of `std::regex` that it uses.
pub mod Random
pub mod Regex
pub mod Patterns
pub mod Strings
pub mod Split
