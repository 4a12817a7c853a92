-- ===== src/Controllers.antt =====
-- drogon/hmdp-cpp-backend/src/hmdp/source/controllers: UserController.cc and
-- VoucherOrderController.cc, from the parsed request to the JSON that the callback is given. `logout`
-- and `userLogout` have empty bodies.
pub mod Answers
pub mod Shops
pub mod Places
pub mod Vouchers
mod Tests
use project_collection.Base.{ℕ, Bool, ◌||◌, ◌==◌, List, length, if◌then◌else◌}
use project_collection.Base.Int.{ℤ}
use project_collection.Base.Text.{Text, codes}
use project_collection.Common.{
  Outcome, ok, raised, Action, pure, raise, throw_if, try_catch, ◌>>=◌, ◌>>◌, Exception, business,
  params_error, Json, int, str, make_success_json, make_error_json, global_handler,
}
use project_collection.Redis.{Redis}
use project_collection.Models.{TbUser}
use project_collection.Database.{Mapper}
use project_collection.VoucherOrder.{Clock, seckill_voucher}
use project_collection.VoucherOrder.Backing.{Store, World}
use project_collection.UserService.{send_code, login, get_current}

-- `catch (BusinessException &e)`
abbrev pub answer_error : {W : Type 0} → Exception → Action W Json
answer_error (business e) = pure (make_error_json e)
answer_error e = raise e

-- What the client receives: what leaves a controller goes to the handler that main.cpp installs.
unfoldable pub client_answer : Outcome Json → Json
client_answer (ok j) = j
client_answer (raised e) = global_handler e

module _ {Server Db : Type 0} (redis : Redis Server) (users : Mapper TbUser Db)
    (rand : ℕ → ℕ → ℕ) where
  unfoldable pub user_code : ℕ → Text → Action (World Server Db) Json
  user_code seconds phone =
      try_catch
        (do
          throw_if (length phone == 0) params_error (codes "入参中手机号为空")
          code ← send_code redis users rand seconds phone
          pure (make_success_json str code))
        answer_error

  unfoldable pub user_login_by_code : ℕ → Text → Text → Text → Action (World Server Db) Json
  user_login_by_code seconds new_token phone code =
      try_catch
        (do
          throw_if ((length phone == 0) || (length code == 0)) params_error (codes "入参中手机号或验证码为空")
          token ← login redis users rand seconds new_token phone code
          pure (make_success_json str token))
        answer_error

  -- `to_json` is `TbUser::toJson`.
  unfoldable pub user_current_answer : (TbUser → Json) → Text → Action (World Server Db) Json
  user_current_answer to_json token =
      try_catch
        (do tb_user ← get_current redis users rand token; pure (make_success_json to_json tb_user))
        answer_error

  -- `VoucherOrderController::seckillVoucher`: the order service behind the login.
  unfoldable pub seckill_answer : Store Db → Clock → Text → ℤ → Action (World Server Db) Json
  seckill_answer store c token id =
      try_catch
        (do
          login_user ← get_current redis users rand token
          res ← seckill_voucher redis store rand c id login_user
          pure (make_success_json int res))
        answer_error
