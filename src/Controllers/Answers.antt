-- ===== src/Controllers/Answers.antt =====
-- What the clients of the controllers receive, in terms of the services.
use project_collection.Base.{ℕ, ◌≡◌, refl, ◌∙◌, ap, false, ◌==◌, length}
use project_collection.Base.Int.{ℤ}
use project_collection.Base.Text.{Text}
use project_collection.Common.{
  Outcome, ok, raised, Action, pure, handle, continue, try_catch, ◌>>=◌, business, redis_exception,
  drogon_db_exception, data_exception, std_exception, Json, int, str, respond, make_success_json,
}
use project_collection.Redis.{Redis}
use project_collection.Models.{TbUser}
use project_collection.Database.{Mapper}
use project_collection.VoucherOrder.{Clock, seckill_voucher}
use project_collection.VoucherOrder.Backing.{Store, World}
use project_collection.UserService.{send_code, login, get_current}
use project_collection.Controllers.{
  answer_error, client_answer, user_code, user_login_by_code, user_current_answer, seckill_answer,
}

pub outcome_answer :
    {W T : Type 0} (f : T → Json) (p : Outcome T × W)
    → client_answer (handle answer_error (continue p λ t. pure (make_success_json f t))).0
      ≡ respond f p.0
unfolding client_answer respond
outcome_answer f (ok t, w) = refl
outcome_answer f (raised (business e), w) = refl
outcome_answer f (raised (redis_exception m), w) = refl
outcome_answer f (raised (drogon_db_exception m), w) = refl
outcome_answer f (raised (data_exception name m), w) = refl
outcome_answer f (raised (std_exception m), w) = refl

continue_assoc :
    {W A B C : Type 0} (p : Outcome A × W) (k : A → Action W B) (g : B → Action W C)
    → continue p (λ a. k a >>= g) ≡ continue (continue p k) g
continue_assoc (ok a, w) k g = refl
continue_assoc (raised e, w) k g = refl

module _ {Server Db : Type 0} (redis : Redis Server) (users : Mapper TbUser Db) (rand : ℕ → ℕ → ℕ)
    (store : Store Db) (c : Clock) (token : Text) (id : ℤ) (w : World Server Db) where
  -- The service call of a seckill request: the login, then the order.
  abbrev pub order_behind_login : Action (World Server Db) ℤ
  order_behind_login = get_current redis users rand token >>= λ login_user.
      seckill_voucher redis store rand c id login_user

  assoc_answer :
      seckill_answer redis users rand store c token id w
      ≡ try_catch (order_behind_login >>= λ t. pure (make_success_json int t)) answer_error w
  unfolding seckill_answer
  assoc_answer = ap (handle answer_error) (
      continue_assoc (get_current redis users rand token w)
        (λ login_user. seckill_voucher redis store rand c id login_user)
        (λ res. pure (make_success_json int res)))

  -- The client of a seckill request receives the order id with code 0 when the login and the order
  -- succeed, the code and texts of a business exception, and otherwise the global error with the
  -- exception's text.
  pub seckill_answer_lem :
      client_answer (seckill_answer redis users rand store c token id w).0
      ≡ respond int (order_behind_login w).0
  seckill_answer_lem =
      ap (λ p. client_answer p.0) assoc_answer ∙ outcome_answer int (order_behind_login w)

module _ {Server Db : Type 0} (redis : Redis Server) (users : Mapper TbUser Db) (rand : ℕ → ℕ → ℕ)
    (w : World Server Db) where
  -- For a request that is not empty, the client of the two requests for a login receives what the
  -- service returned, with code 0, or the error that it threw; the client of a request for the
  -- current user likewise.
  pub user_answers :
      (seconds : ℕ) (new_token phone code token : Text) (to_json : TbUser → Json)
      → (length phone == 0) ≡ false
      → (length code == 0) ≡ false
      → (client_answer (user_code redis users rand seconds phone w).0
          ≡ respond str (send_code redis users rand seconds phone w).0)
        × (client_answer (user_login_by_code redis users rand seconds new_token phone code w).0
            ≡ respond str (login redis users rand seconds new_token phone code w).0)
        × (client_answer (user_current_answer redis users rand to_json token w).0
            ≡ respond to_json (get_current redis users rand token w).0)
  unfolding user_code user_login_by_code user_current_answer
  user_answers seconds new_token phone code token to_json p c = (
    rw p (outcome_answer str (send_code redis users rand seconds phone w)),
    rw (p, c) (outcome_answer str (login redis users rand seconds new_token phone code w)),
    outcome_answer to_json (get_current redis users rand token w),
  )
