-- ===== src/UserCenter/Service.antt =====
-- services/UserServiceImpl.cc. The table, the session and `utils::getMd5` are parameters.
use project_collection.Base.{
  ℕ, Bool, true, false, not, ◌||◌, ◌&&◌, ◌==◌, ltb, List, [], ◌∷◌, map, Option, some, length,
  if◌then◌else◌,
}
use project_collection.Base.Int.{ℤ, pos}
use project_collection.Base.Text.{Text, codes, text_eq}
use project_collection.Common.{
  ok, Action, pure, raise, throw, throw_if, try_catch, ◌>>=◌, ◌>>◌, Exception, drogon_db_exception,
  params_error,
}
use project_collection.Database.{Mapper}
use project_collection.Models.{number_of, text_of, is_number, is_text}
use project_collection.Util.Regex.{one_of, plus, regex_search}
use project_collection.UserCenter.Model.{User, no_account}

-- drogon's session of the client, for the values that the program keeps in it.
pub record Sessions (S : Type 0) : Type 0 where
  pub find : Text → S → Option User
  pub insert : Text → User → S → S
  pub erase : Text → S → S

pub record World (S Db : Type 0) : Type 0 where
  pub session : S
  pub db : Db

abbrev pub at_db : {S Db A : Type 0} → Action Db A → Action (World S Db) A
at_db m w = ((m w.db).0, record w { db = (m w.db).1 })

abbrev pub on_session : {S Db : Type 0} → (S → S) → Action (World S Db) (Unit {0})
on_session f w = (ok tt, record w { session = f w.session })

-- USER_LOGIN_STATE
abbrev pub user_login_state : Text
user_login_state = codes "userLoginState"

abbrev pub contains : ℕ → Text → Bool
contains c [] = false
contains c (d ∷ s) = (c == d) || contains c s

-- The class of the pattern, with its escapes read.
unfoldable pub is_special : ℕ → Bool
unfolding codes
is_special c = contains c (codes "~!/@#$%^&*()-_=+|[{}];:'\",<.>/?")

unfoldable pub check_special_character : Text → Bool
check_special_character s = regex_search (plus (one_of is_special)) s

-- `getSafetyUser`: a column that was null comes out as its default.
unfoldable pub get_safety_user : User → User
get_safety_user u = record no_account {
  id = some (number_of u.id);
  username = some (text_of u.username);
  user_account = some (text_of u.user_account);
  avatar_url = some (text_of u.avatar_url);
  gender = some (number_of u.gender);
  iphone = some (text_of u.iphone);
  email = some (text_of u.email);
  user_role = some (number_of u.user_role);
  user_status = some (number_of u.user_status);
  create_time = some (number_of u.create_time);
  planet_code = some (text_of u.planet_code);
}

-- The row that a registration inserts.
abbrev pub new_account : Text → Text → Text → User
new_account account encrypted planet_code = record no_account {
  iphone = some [];
  email = some [];
  user_status = some (pos 0);
  user_account = some account;
  user_password = some encrypted;
  planet_code = some planet_code;
}

abbrev pub is_nil {ℓ} : {A : Type ℓ} → List A → Bool
is_nil [] = true
is_nil (_ ∷ _) = false

module _ {S Db : Type 0} (sessions : Sessions S) (users : Mapper User Db) (md5 : Text → Text) where
  unfoldable pub encrypt_pwd : Text → Text
  encrypt_pwd password = md5 password

  unfoldable pub user_register : Text → Text → Text → Text → Action (World S Db) ℤ
  unfolding encrypt_pwd
  user_register account password check_password planet_code = do
    throw_if (is_nil account || is_nil password || is_nil check_password || is_nil check_password)
        params_error (codes "参数为空")
    throw_if (ltb (length account) 4) params_error (codes "用户账号小于4位")
    throw_if (ltb (length password) 8 || ltb (length check_password) 8) params_error
        (codes "用户密码和校验密码小于8位")
    throw_if (ltb 5 (length planet_code)) params_error (codes "星球编号大于5位")
    throw_if (check_special_character account) params_error (codes "用户账号中存在特殊字符")
    throw_if (not (text_eq password check_password)) params_error (codes "用户密码和校验密码不同")
    same_account ← at_db (users.find_by (λ u. is_text users.sort_key u.user_account account))
    throw_if (not (is_nil same_account)) params_error (codes "用户账号已存在")
    same_planet ← at_db (users.find_by (λ u. is_text users.sort_key u.planet_code planet_code))
    throw_if (not (is_nil same_planet)) params_error (codes "星球账号已存在")
    user ← at_db (users.insert (new_account account (encrypt_pwd password) planet_code))
    stored ← at_db (users.find_by (λ u. is_text users.sort_key u.planet_code planet_code))
    throw_if (not (length stored == 1)) params_error (codes "插入数据失败")
    pure (number_of user.id)

  -- `catch (const DrogonDbException &)`
  abbrev pub db_failure : {A : Type 0} → Text → Exception → Action (World S Db) A
  db_failure d (drogon_db_exception m) = throw params_error d
  db_failure d e = raise e

  unfoldable pub user_login : Text → Text → Action (World S Db) User
  unfolding encrypt_pwd
  user_login account password = do
    throw_if (is_nil account || is_nil password) params_error (codes "用户账号或密码为空")
    throw_if (ltb (length account) 4) params_error (codes "用户账号小于4位")
    throw_if (ltb (length password) 8) params_error (codes "用户密码小于8位")
    throw_if (check_special_character account) params_error (codes "用户账号中存在特殊字符")
    try_catch
        (do
          user ← at_db (
              users.find_one (λ u.
                is_text users.sort_key u.user_account account
                && is_text users.sort_key u.user_password (encrypt_pwd password)))
          on_session (sessions.insert user_login_state (get_safety_user user))
          pure (get_safety_user user))
        (db_failure (codes "用户不存在"))

  unfoldable pub user_search : Text → Action (World S Db) (List User)
  user_search username = do
    user_list ← at_db (
        if is_nil username
        then users.find_all
        else users.find_by (λ u. is_text users.sort_key u.username username))
    pure (map get_safety_user user_list)

  unfoldable pub user_current : ℤ → Action (World S Db) User
  user_current id =
      try_catch
        (do user ← at_db (users.find_one (λ u. is_number u.id id)); pure (get_safety_user user))
        (db_failure (codes "获取当前用户失败"))

  unfoldable pub user_delete : ℤ → Action (World S Db) Bool
  user_delete id =
      try_catch
        (do
          ret ← at_db (users.delete_by (λ u. is_number u.id id))
          throw_if (not (ret == 1)) params_error (codes "删除指定用户失败")
          pure true)
        (db_failure (codes "删除指定用户失败"))

  unfoldable pub user_logout : Action (World S Db) ℤ
  user_logout = on_session (sessions.erase user_login_state) >> pure (pos 1)
