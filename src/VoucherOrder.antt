-- ===== src/VoucherOrder.antt =====
-- source/services/VoucherOrderServiceImpl.cc: flash sale of a voucher, one order for each user.
-- The Redis client and the database are parameters; each call is given its readings of the clock.
pub mod Backing
pub mod Contract
pub mod Statement
pub mod Branches
pub mod Rows
pub mod Orders
pub mod Guarantees
pub mod Window
pub mod Interleaving
pub mod Memory
mod Tests
use project_collection.Base.{
  ℕ, not, ◌==◌, Bool, true, false, List, [], ◌∷◌, ◌++◌, some, ◌&&◌, ltb, length,
}
use project_collection.Base.Int.{ℤ, pos, ltb_ℤ}
use project_collection.Base.Text.{Text, codes, text_eq, to_string, atol}
use project_collection.Common.{
  Outcome, ok, raised, Action, pure, raise, throw, throw_if, try_catch, ◌>>=◌, ◌>>◌, Exception,
  redis_exception, data_exception, params_error, db_error, cache_error,
}
use project_collection.Redis.{Redis, set, del, execute_string, execute_int64}
use project_collection.Models.{
  TbUser, TbSeckillVoucher, TbVoucherOrder, no_order, number_of, is_number,
}
use project_collection.Util.Random.{get_random_number_str}
use Backing.{Store, World, at_server, at_db}

-- `trantor::Date::now()`, the formatted `LocalDateTime` and `time()` at the call.
pub record Clock : Type 0 where
  pub now : ℤ
  pub local_text : Text
  pub seconds : ℕ

-- RedisConstants
abbrev pub lock_order_key : Text
lock_order_key = codes "lock:order:"

abbrev pub lock_order_ttl : ℕ
lock_order_ttl = 10

abbrev pub lock_key : ℤ → Text
lock_key user_id = lock_order_key ++ to_string user_id

-- The statement that takes one item off the stock.
unfoldable pub decrement_sql : ℤ → Text
decrement_sql voucher_id =
    codes "update tb_seckill_voucher set stock=stock-1 where voucher_id="
    ++ (to_string voucher_id ++ codes " and stock>0;")

-- The date and time with four random digits behind it, read as a number.
unfoldable pub order_id : (ℕ → ℕ → ℕ) → Clock → ℤ
order_id rand c = atol (c.local_text ++ get_random_number_str rand c.seconds 4)

-- Whether an order is that user's order of that voucher.
abbrev pub is_order_of : ℤ → ℤ → TbVoucherOrder → Bool
is_order_of user_id voucher_id o = is_number o.user_id user_id && is_number o.voucher_id voucher_id

-- The order that is inserted: three columns are set.
abbrev pub new_order : ℤ → ℤ → ℤ → TbVoucherOrder
new_order id user_id voucher_id = record no_order {
  id = some id;
  user_id = some user_id;
  voucher_id = some voucher_id;
}

module _ {Server Db : Type 0} (redis : Redis Server) (store : Store Db) (rand : ℕ → ℕ → ℕ) where
  unfoldable pub try_lock : Text → Text → ℕ → Action (World Server Db) Bool
  try_lock key val expire_time = do
    result ← at_server (execute_string redis (set key val false expire_time))
    pure (text_eq result (codes "OK"))

  unfoldable pub un_lock : Text → Action (World Server Db) (Unit {0})
  un_lock key = at_server (execute_int64 redis (del key)) >> pure tt

  -- The two `catch` clauses; any other exception passes.
  unfoldable pub rethrow : {A : Type 0} → Exception → Action (World Server Db) A
  rethrow (data_exception name m) = throw db_error (codes "DataException:" ++ m)
  rethrow (redis_exception m) = throw cache_error (codes "RedisException:" ++ m)
  rethrow e = raise e

  -- The body of the `try` block, behind the lock.
  unfoldable pub place_order : Clock → ℤ → ℤ → Action (World Server Db) ℤ
  unfolding un_lock
  place_order c voucher_id user_id = do
    orders ← at_db (store.orders.find_by (is_order_of user_id voucher_id))
    throw_if (ltb 0 (length orders)) params_error (codes "用户已经购买过一次")
    affected ← at_db (store.execute_sql (decrement_sql voucher_id))
    throw_if (affected == 0) params_error (codes "库存不足")
    at_db (store.orders.insert (new_order (order_id rand c) user_id voucher_id))
    un_lock (lock_key user_id)
    pure (order_id rand c)

  unfoldable pub create_voucher_order : Clock → ℤ → TbUser → Action (World Server Db) ℤ
  unfolding try_lock place_order rethrow
  create_voucher_order c voucher_id login_user = do
    let user_id = number_of login_user.id
    is_lock ← try_lock (lock_key user_id) (codes "1") lock_order_ttl
    throw_if (not is_lock) params_error (codes "不允许重复下单")
    try_catch (place_order c voucher_id user_id) rethrow

  unfoldable pub seckill_voucher : Clock → ℤ → TbUser → Action (World Server Db) ℤ
  unfolding create_voucher_order
  seckill_voucher c voucher_id login_user = do
    voucher ← at_db (store.vouchers.find_one (λ v. is_number v.voucher_id voucher_id))
    throw_if (ltb_ℤ c.now (number_of voucher.begin_time)) params_error (codes "秒杀尚未开始")
    throw_if (ltb_ℤ (number_of voucher.end_time) c.now) params_error (codes "秒杀已经结束")
    throw_if (ltb_ℤ (number_of voucher.stock) (pos 1)) params_error (codes "库存不足")
    create_voucher_order c voucher_id login_user
