-- ===== src/VoucherOrder/Branches.antt =====
-- The branches of `createVoucherOrder`, one by one, over a server and a database that answer.
use project_collection.Base.{
  ℕ, suc, Option-cases, inl, inr, ltb, ◌==◌, ◌≡◌, refl, true, false, none, some, List, [], ◌∷◌,
  arith, length,
}
use project_collection.Base.Int.{ℤ, pos}
use project_collection.Base.Text.{Text, codes, text_eq_refl}
use project_collection.Common.{
  ok, raised, std_exception, business, BusinessException, business_with, params_error,
  drogon_db_exception, handle,
}
use project_collection.Redis.{Redis, IsRedis, set, del, bad_cast, Entry, Keys, reply, integer}
use project_collection.Models.{TbUser, TbSeckillVoucher, TbVoucherOrder, number_of}
use project_collection.Database.{select}
use project_collection.VoucherOrder.{
  Clock, lock_key, order_id, new_order, is_order_of, try_lock, place_order, decrement_sql, rethrow,
  create_voucher_order, lock_order_ttl,
}
use project_collection.VoucherOrder.Backing.{Store, World}
use project_collection.VoucherOrder.Contract.{IsStore, sells}
use project_collection.VoucherOrder.Statement.{decremented}

ltb-zero-suc : (n : ℕ) → ltb 0 (suc n) ≡ true
ltb-zero-suc n = ground arith

eqb-suc-zero : (n : ℕ) → (suc n == 0) ≡ false
eqb-suc-zero n = ground arith

count_reply : (m : Keys) (k : Text) → (n : ℤ) × (reply m (del k) ≡ integer n)
count_reply m k = elim (Option-cases (m k)) [
  | inl missing ↦ (pos 0, rw missing refl)
  | inr (e, there) ↦ (pos 1, rw there refl)
]

abbrev pub already_bought : BusinessException
already_bought = business_with params_error (codes "用户已经购买过一次")

abbrev pub no_stock : BusinessException
no_stock = business_with params_error (codes "库存不足")

-- The server after the attempt to set the lock key of a user.
abbrev pub locked : {Server Db : Type 0} → Redis Server → ℤ → World Server Db → World Server Db
locked redis user_id w = record w {
  server = (redis.send (set (lock_key user_id) (codes "1") false lock_order_ttl) w.server).1;
}

module _ {Server Db : Type 0} (redis : Redis Server) (store : Store Db) (rand : ℕ → ℕ → ℕ)
    (answers : IsRedis redis) (c : Clock) (voucher_id : ℤ) (u : TbUser) (w : World Server Db) where
  -- With the lock key absent the call is its `try` block behind the lock.
  pub create_voucher_order_free :
      redis.keys w.server (lock_key (number_of u.id)) ≡ none
      → create_voucher_order redis store rand c voucher_id u w
        ≡ handle (rethrow redis store rand) (
            place_order redis store rand c voucher_id
              (number_of u.id)
              (locked redis (number_of u.id) w))
  unfolding create_voucher_order try_lock place_order
  create_voucher_order_free free = rw (
    answers.replies (set (lock_key (number_of u.id)) (codes "1") false lock_order_ttl) w.server,
    free,
    answers.string_simple,
    text_eq_refl (codes "OK"),
  )

  -- With the lock key present the nil reply of SET NX cannot be read as a string.
  pub create_voucher_order_held :
      (e : Entry)
      → redis.keys w.server (lock_key (number_of u.id)) ≡ some e
      → create_voucher_order redis store rand c voucher_id u w
        ≡ (raised (std_exception bad_cast), locked redis (number_of u.id) w)
  unfolding create_voucher_order try_lock
  create_voucher_order_held e held = rw (
    answers.replies (set (lock_key (number_of u.id)) (codes "1") false lock_order_ttl) w.server,
    held,
    answers.string_bulk,
  )

-- The database after the stock was taken, and after the order went in as well.
abbrev pub taken : {Db : Type 0} → Store Db → ℤ → Db → Db
taken store voucher_id d = (store.execute_sql (decrement_sql voucher_id) d).1

abbrev pub ordered : {Db : Type 0} → Store Db → ℤ → TbVoucherOrder → Db → Db
ordered store voucher_id o d = (store.orders.insert o (taken store voucher_id d)).1

-- What the body does when the database answers, by what the two tables hold.
module _ {Server Db : Type 0} (redis : Redis Server) (store : Store Db) (rand : ℕ → ℕ → ℕ)
    (stored : IsStore store) (c : Clock) (voucher_id user_id : ℤ) (w : World Server Db) where
  pub place_order_bought :
      (o : TbVoucherOrder) (os : List TbVoucherOrder)
      → select (is_order_of user_id voucher_id) (store.orders.rows w.db) ≡ o ∷ os
      → place_order redis store rand c voucher_id user_id w ≡ (raised (business already_bought), w)
  unfolding place_order
  place_order_bought o os found = rw (
    stored.order_reads.found (is_order_of user_id voucher_id) w.db,
    found,
    ltb-zero-suc (length os),
  )

  pub place_order_sold_out :
      select (is_order_of user_id voucher_id) (store.orders.rows w.db) ≡ []
      → select (sells voucher_id) (store.vouchers.rows w.db) ≡ []
      → place_order redis store rand c voucher_id user_id w
        ≡ (raised (business no_stock), record w { db = taken store voucher_id w.db })
  unfolding place_order
  place_order_sold_out first none_left = rw (
    stored.order_reads.found (is_order_of user_id voucher_id) w.db,
    first,
    (decremented store stored voucher_id w.db).1,
    none_left,
  )

  module _ (first : select (is_order_of user_id voucher_id) (store.orders.rows w.db) ≡ [])
      (v : TbSeckillVoucher) (vs : List TbSeckillVoucher)
      (left : select (sells voucher_id) (store.vouchers.rows w.db) ≡ v ∷ vs) where
    pub place_order-taken_id :
        (e : Text)
        → (store.orders.insert
            (new_order (order_id rand c) user_id voucher_id)
            (taken store voucher_id w.db)).0
          ≡ raised (drogon_db_exception e)
        → place_order redis store rand c voucher_id user_id w ≡ (
          raised (drogon_db_exception e),
          record w {
            db = ordered store voucher_id (new_order (order_id rand c) user_id voucher_id) w.db;
          },
        )
    unfolding place_order
    place_order-taken_id e clash = rw (
      stored.order_reads.found (is_order_of user_id voucher_id) w.db,
      first,
      (decremented store stored voucher_id w.db).1,
      left,
      eqb-suc-zero (length vs),
      clash,
    )

    pub place_order_done :
        IsRedis redis
        → (r : TbVoucherOrder)
        → (store.orders.insert
            (new_order (order_id rand c) user_id voucher_id)
            (taken store voucher_id w.db)).0
          ≡ ok r
        → place_order redis store rand c voucher_id user_id w ≡ (
          ok (order_id rand c),
          record {
            server = (redis.send (del (lock_key user_id)) w.server).1;
            db = ordered store voucher_id (new_order (order_id rand c) user_id voucher_id) w.db;
          },
        )
    unfolding place_order
    place_order_done answers r fresh =
        let (n, count) = count_reply (redis.keys w.server) (lock_key user_id) in
        rw (
          stored.order_reads.found (is_order_of user_id voucher_id) w.db,
          first,
          (decremented store stored voucher_id w.db).1,
          left,
          eqb-suc-zero (length vs),
          fresh,
          answers.replies (del (lock_key user_id)) w.server,
          count,
          answers.int64_integer,
        )
