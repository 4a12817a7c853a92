-- ===== src/UserCenter/Controller.antt =====
-- controllers/UserController.cc: each handler's answer to a request, as the JSON that the callback
-- is given. What is no `BusinessException` leaves the handler.
use project_collection.Base.{Bool, true, false, not, ◌||◌, Option, none, some, if◌then◌else◌}
use project_collection.Base.Int.{ℤ, pos, negsuc, leb_ℤ}
use project_collection.Base.Text.{Text, codes}
use project_collection.Common.{
  ok, Action, pure, raise, throw_if, try_catch, ◌>>=◌, ◌>>◌, Exception, business, business_of,
  params_error, no_login, Json, int, make_success_json, make_list_json, make_error_json,
}
use project_collection.Database.{Mapper}
use project_collection.Models.{number_of, text_of, eqb_ℤ}
use project_collection.UserCenter.Model.{User, user_to_json}
use project_collection.UserCenter.Service.{
  Sessions, World, user_login_state, is_nil, user_register, user_login, user_search, user_current,
  user_delete, user_logout,
}

abbrev pub is_none {ℓ} : {A : Type ℓ} → Option A → Bool
is_none none = true
is_none (some _) = false

-- UserConstant.h
abbrev pub admin_role : ℤ
admin_role = pos 1

-- `catch (BusinessException &e)`
abbrev pub report : {W : Type 0} → Exception → Action W Json
report (business e) = pure (make_error_json e)
report e = raise e

abbrev is_admin_user : Option User → Bool
is_admin_user none = false
is_admin_user (some u) = eqb_ℤ (number_of u.user_role) admin_role

-- `static_cast<Json::Int64>` of a bool.
abbrev pub bool_json : Bool → Json
bool_json true = int (pos 1)
bool_json false = int (pos 0)

-- filters/LoginFilter.cc: the condition is the constant 1, and the request goes on.
unfoldable pub do_filter : {W A : Type 0} → Action W A → Action W A → Action W A
do_filter passed failed = if true then passed else failed

module _ {S Db : Type 0} (sessions : Sessions S) (users : Mapper User Db) (md5 : Text → Text)
    (date_text : ℤ → Text) where
  unfoldable pub current_login : Action (World S Db) (Option User)
  current_login w = (ok (sessions.find user_login_state w.session), w)

  unfoldable pub is_admin : Action (World S Db) Bool
  unfolding current_login
  is_admin = do login ← current_login; pure (is_admin_user login)

  unfoldable pub handle_register : User → Text → Action (World S Db) Json
  handle_register req check_password =
      try_catch
        (do
          throw_if
              (is_none req.user_account
                || is_none req.user_password
                || is_nil check_password
                || is_none req.planet_code)
              params_error (codes "入参中账号或密码或校验密码或星球编号不存在")
          throw_if
              (is_nil (text_of req.user_account)
                || is_nil (text_of req.user_password)
                || is_nil check_password)
              params_error (codes "入参中账号或密码或校验密码或星球编号为空")
          id ←
              user_register sessions users md5 (text_of req.user_account)
                (text_of req.user_password) check_password (text_of req.planet_code)
          pure (make_success_json int id))
        report

  unfoldable pub handle_login : User → Action (World S Db) Json
  handle_login req =
      try_catch
        (do
          throw_if (is_none req.user_account || is_none req.user_password) params_error
              (codes "入参中账号或密码不存在")
          throw_if (is_nil (text_of req.user_account) || is_nil (text_of req.user_password))
              params_error (codes "入参中账号或密码为空")
          user ←
              user_login sessions users md5 (text_of req.user_account) (text_of req.user_password)
          pure (make_success_json (user_to_json date_text) user))
        report

  -- The test for a null request has no counterpart: a handler is given a request.
  unfoldable pub handle_logout : Action (World S Db) Json
  handle_logout =
      try_catch (do result ← user_logout sessions users md5; pure (make_success_json int result))
        report

  unfoldable pub handle_search : Text → Action (World S Db) Json
  handle_search username =
      try_catch
        (do
          admin ← is_admin
          throw_if (not admin) params_error (codes "非管理员用户，无查询权限")
          user_list ← user_search sessions users md5 username
          pure (make_list_json (user_to_json date_text) user_list))
        report

  current_of : Option User → Action (World S Db) Json
  current_of none = raise (business (business_of no_login))
  current_of (some u) = do
    user ← user_current sessions users md5 (number_of u.id)
    pure (make_success_json (user_to_json date_text) user)

  unfoldable pub handle_current : Action (World S Db) Json
  unfolding current_login current_of
  handle_current = try_catch (do login ← current_login; current_of login) report

  unfoldable pub handle_delete : User → Action (World S Db) Json
  handle_delete req =
      try_catch
        (do
          admin ← is_admin
          throw_if (not admin) params_error (codes "非管理员用户，无删除权限")
          let id = if is_none req.id then negsuc 0 else number_of req.id
          throw_if (leb_ℤ id (pos 0)) params_error (codes "用户id不合法")
          ret ← user_delete sessions users md5 id
          pure (make_success_json bool_json ret))
        report
