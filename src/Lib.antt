-- ===== src/Lib.antt =====
-- The drogon back ends of this repository: drogon/hmdp-cpp-backend, a review site with seckill
-- vouchers over MySQL and Redis, and drogon/usercenter-cpp-backend, accounts with a password and
-- a login state in the session.
--
-- Base has what the modules share: Boolean tests and lists over the native numbers, integers
-- (Base/Int), and texts as lists of bytes with the decimal conversions of the C library
-- (Base/Text).
--
-- Common models include/common and include/exception of src/hmdp: ErrorCode, BusinessException,
-- the response classes, and the handler for exceptions that no controller catches. A C++ call is
-- an Action: it takes the state and gives a value or an exception with the state that it leaves.
-- What was written before a throw stays written.
--
-- Redis and Database are the parts of Poco::Redis and of drogon's Mapper that the program calls.
-- Both are parameters, records of operations, and IsRedis, IsReader and the other contracts are
-- their documented behaviour. Redis/Memory, VoucherOrder/Memory and UserCenter/Memory instantiate
-- them in memory, which shows that the contracts can be met, and serve the runs in the modules
-- called Tests. The text of an exception of Poco is the name of its class, as its what() gives.
-- Models has the rows of include/models with the defaults of the getValueOf functions. A mapper
-- brings the collation of its texts (sort_key), since MySQL compares texts by it and not by their
-- bytes. The SQL text is sent to the database as it is. What the tables do is taken from the
-- repository's SQL files: IsStore gives what an update of the form that the code builds does, for
-- any factor of its condition, with the time of the last update that changes, and an insertion
-- with the defaults that it fills in and the bounds on ids (sql/hmdp.sql); IsUsers lets an
-- insertion fail for a value longer than its column (sql/mysql.sql).
--
-- Util models source/utils: RandomUtils.cpp, with the sequence of rand() after srand as a
-- parameter, and RegexUtils.cpp with source/constants/RegexPatterns.cpp, the trimming of
-- CommonUtils.cpp (Util/Strings) and its splitting of query strings (Util/Split), on fuel of one
-- more than the length. Patterns stand over regular expressions that are matched by derivatives.
--
-- VoucherOrder models source/services/VoucherOrderServiceImpl.cc: seckillVoucher,
-- createVoucherOrder, tryLock and unLock. A call reads the clock once (Clock). Interleaving has
-- the same code as a step relation, a step for each access to Redis or the database, for any
-- number of requests at once, Interleaving/Expiry adds the expiry of the lock, and
-- Interleaving/Progress counts the steps of a request.
--
-- UserService models source/services/UserServiceImpl.cc and source/dto/UserDTO.cpp: sendCode,
-- login and getCurrent over Redis, with utils::getUuid() as the argument token. VoucherService
-- models source/services/VoucherServiceImpl.cc: a voucher is a row of TbVoucher, and the terms of
-- its sale are read from the request after the first insertion, with Date::fromDbStringLocal as a
-- parameter. Controllers models source/controllers/UserController.cc, VoucherOrderController.cc,
-- VoucherController.cc (Controllers/Vouchers) and ShopController.cc (Controllers/Shops, and
-- Controllers/Places for queryShopByType), with what main.cpp does for exceptions that they do
-- not catch.
--
-- Orm models the classes that drogon_ctl generates from the tables: source/models/*.cc with
-- include/models/*.h of hmdp, and models/User.cc with User.h of the user center. Each class is a
-- table of columns (Orm/Tables, a module per class), and the functions that every class has are
-- written once for such a table: the constructors from JSON, from a vector of names and from a
-- row of a result, the updates, toJson, the validations (Orm/Validation), the getters and setters
-- (Orm/Access), the statements and their arguments (Orm/Sql). Reads is a parameter: the
-- conversions and tests of Json::Value, strptime with mktime, and the printing of a date. IsReads
-- is what is documented of them, and Orm/Memory meets it. Orm/Classes shows that the twelve
-- classes meet the conditions on columns that the theorems ask for. An exception in the middle of
-- an update leaves an object half changed; the model keeps only that it was thrown.
--
-- ShopService models source/services/ShopServiceImpl.cc on top of Orm and Redis: a shop is a row
-- of TbShop, the cache holds its JSON text, and JsonUtils of source/utils/CommonUtils.cpp
-- (ShopService/Texts) makes the map that is stored. The printer and the parser of JSON texts are
-- the parameter Styled. The wait for the lock in queryWithMutex is recursion on fuel; one round
-- is enough, since tryLock says yes or throws. ShopService/Places has loadShopData and
-- ShopService/Search has queryByType. GEOADD and GEOSEARCH are the parameter Geo with its
-- contract IsGeo, in which GEOADD succeeds for longitudes and latitudes in the range of Redis,
-- and atof with std::to_string of a double is the parameter Doubles; ShopService/Places/Memory
-- instantiates both. An access to a vector before its start is none. ShopService/Expiry has
-- queryWithLogicalExpire with include/common/RedisData.h: the members of the service that it uses
-- are part of the state, a refresh that was started is counted, and its run is an action of its
-- own at any later time. The texts of dates are the parameter Dates.
--
-- UserCenter models drogon/usercenter-cpp-backend: the row and its JSON (models/User.cc),
-- services/UserServiceImpl.cc, filters/LoginFilter.cc, and controllers/UserController.cc from the
-- parsed request to the JSON answer. The digest utils::getMd5, the dates' text, the session and
-- the table are parameters.
--
-- Numbers: a long is an integer without a bound. The order id has 18 digits and fits in 64 bits;
-- ids and stocks are far from the bounds. Loops are recursion on lists and numbers; only the wait
-- for a lock, the splitting of a text and the printing of a decimal number run on fuel; for the
-- last it is one more than the number, and digits_value-digits shows that it is enough.
--
-- Not modelled: logging, connection pools and configuration, the parsing of HTTP requests, and
-- the conversions to wide characters in CommonUtils.cpp.
pub mod Base
pub mod Common
pub mod Redis
pub mod Database
pub mod Models
pub mod Util
pub mod VoucherOrder
pub mod UserService
pub mod Orm
pub mod VoucherService
pub mod Controllers
pub mod UserCenter
pub mod ShopService
