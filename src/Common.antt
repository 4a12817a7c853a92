-- ===== src/Common.antt =====
-- What the services and controllers share: drogon/hmdp-cpp-backend/src/hmdp/include/common and
-- include/exception, with the copies of both under drogon/usercenter-cpp-backend.
mod Errors
mod Calls
mod Values
mod Response
unfoldable pub use Errors.*
pub use Calls.*
unfoldable pub use Values.*
unfoldable pub use Response.*
