-- ===== src/UserService.antt =====
-- drogon/hmdp-cpp-backend/src/hmdp: source/services/UserServiceImpl.cc and source/dto/UserDTO.cpp.
pub mod Dto
pub mod Token
pub mod Login
mod Tests
use project_collection.Base.{
  ℕ, Bool, true, false, not, ◌||◌, ◌==◌, List, [], ◌∷◌, ◌++◌, Option, none, some, length,
  if◌then◌else◌, ltb,
}
use project_collection.Base.Int.{ℤ, pos}
use project_collection.Base.Text.{Text, codes, text_eq, digits}
use project_collection.Common.{
  Outcome, ok, raised, Action, pure, raise, throw, throw_if, try_catch, ◌>>=◌, ◌>>◌, Exception,
  redis_exception, std_exception, params_error, system_error, cache_error, no_login,
}
use project_collection.Redis.{
  Redis, set, get, hmset, expire, hgetall, execute_int64, execute_string, execute_bulk,
  execute_array, insert,
}
use project_collection.Models.{TbUser, no_user, number_of, text_of, is_text}
use project_collection.Database.{Mapper}
use project_collection.Util.Random.{get_random_number_str}
use project_collection.Util.Patterns.{is_phone_invalid}
use project_collection.VoucherOrder.Backing.{World, at_server, at_db}
use Dto.{UserDto, dto_of_user, dto_of_map}

-- RedisConstants: LOGIN_USER_KEY, LOGIN_CODE_TTL and LOGIN_USER_TTL.
abbrev pub login_user_key : Text → Text
login_user_key t = codes "login:token:" ++ t

abbrev pub login_code_ttl : ℕ
login_code_ttl = 120

abbrev pub login_user_ttl : ℕ
login_user_ttl = 36000

-- The loop of `getCurrent` over the reply to HGETALL, which runs to one before the last element.
abbrev pub pairs : List Text → List (Text × Text) → List (Text × Text)
pairs (k ∷ v ∷ rest) m = pairs rest (insert k v m)
pairs _ m = m

-- With no element the loop's bound wraps round, and `get(0)` throws an `InvalidArgumentException`.
abbrev pub fields_of : {W : Type 0} → List Text → Action W (List (Text × Text))
fields_of [] = raise (std_exception (codes "Invalid argument"))
fields_of (x ∷ xs) = pure (pairs (x ∷ xs) [])

abbrev is_empty : {A : Type 0} → List A → Bool
is_empty xs = length xs == 0

-- `catch (Poco::Redis::RedisException &e)`
abbrev pub cache_failure : {W A : Type 0} → Exception → Action W A
cache_failure (redis_exception m) = throw cache_error (codes "RedisException:" ++ m)
cache_failure e = raise e

unfoldable pub get_safety_user : TbUser → TbUser
get_safety_user u = record no_user {
  id = some (number_of u.id);
  phone = some (text_of u.phone);
  nick_name = some (text_of u.nick_name);
  icon = some (text_of u.icon);
}

module _ {Server Db : Type 0} (redis : Redis Server) (users : Mapper TbUser Db)
    (rand : ℕ → ℕ → ℕ) where
  unfoldable pub send_code : ℕ → Text → Action (World Server Db) Text
  send_code seconds phone =
      try_catch
        (do
          throw_if (not (is_phone_invalid phone)) params_error (codes "入参中手机号格式不对")
          let code = get_random_number_str rand seconds 6
          at_server (execute_string redis (set (login_user_key phone) code true login_code_ttl))
          pure code)
        cache_failure

  unfoldable pub create_user_with_phone : ℕ → Text → Action (World Server Db) TbUser
  create_user_with_phone seconds phone = do
    user ← at_db (
        users.insert (record no_user {
          phone = some phone;
          nick_name = some (codes "user_" ++ get_random_number_str rand seconds 10);
        }))
    ret ← at_db (users.find_by (λ u. is_text users.sort_key u.phone phone))
    throw_if (not (length ret == 1)) params_error (codes "插入数据失败")
    pure user

  -- The user of the phone number, by the number of rows that were found.
  user_of : ℕ → Text → List TbUser → Action (World Server Db) TbUser
  user_of seconds phone [] = create_user_with_phone seconds phone
  user_of seconds phone (u ∷ []) = pure (get_safety_user u)
  user_of seconds phone (u ∷ v ∷ us) =
      throw system_error (codes "查询的用户数量:" ++ digits (length (u ∷ v ∷ us)) ++ codes ",异常")

  abbrev pub same_code : Option Text → Text → Bool
  same_code none code = false
  same_code (some c) code = text_eq c code

  -- `token` is what `utils::getUuid()` returns.
  unfoldable pub login : ℕ → Text → Text → Text → Action (World Server Db) Text
  unfolding user_of
  login seconds token phone code =
      try_catch
        (do
          throw_if (not (is_phone_invalid phone)) params_error (codes "入参中手机号格式不对")
          cache_code ← at_server (execute_bulk redis (get (login_user_key phone)))
          throw_if (not (same_code cache_code code)) params_error (codes "验证码不一致")
          found ← at_db (users.find_by (λ u. is_text users.sort_key u.phone phone))
          user ← user_of seconds phone found
          at_server
              (execute_string redis (hmset (login_user_key token) (dto_of_user user).user_dto))
          at_server (execute_int64 redis (expire (login_user_key token) login_user_ttl))
          pure token)
        cache_failure

  user_of_dto : UserDto → TbUser
  user_of_dto dto = record no_user {
    id = some dto.id;
    nick_name = some dto.nick_name;
    icon = some dto.icon;
  }

  -- `token` is the request's header JSESSIONID.
  unfoldable pub get_current : Text → Action (World Server Db) TbUser
  unfolding user_of_dto
  get_current token =
      try_catch
        (do
          throw_if (is_empty token) no_login (codes "用户未登陆")
          result ← at_server (execute_array redis (hgetall (login_user_key token)))
          user_map ← fields_of result
          throw_if (is_empty user_map) params_error (codes "用户不存在")
          dto ← dto_of_map user_map
          at_server (execute_int64 redis (expire (login_user_key token) login_user_ttl))
          pure (user_of_dto dto))
        cache_failure
