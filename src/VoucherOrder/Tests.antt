-- ===== src/VoucherOrder/Tests.antt =====
-- Runs of the order service on small tables, and its guarantees at inputs that meet their
-- conditions.
use project_collection.Base.{ℕ, ◌≡◌, ◌≢◌, refl, none, some, true, map, [], ◌∷◌, arith, ap, ◌⊎◌}
use project_collection.Base.Int.{ℤ, pos, ◌-ℤ◌, ◌≤ℤ◌}
use project_collection.Base.Text.{
  Text, to_string-injective, append_cancel, codes, atol, text_eq_refl, digits, digits_value,
}
use project_collection.Common.{ok, raised, std_exception, business}
use project_collection.Redis.{Keys, bad_cast, put}
use project_collection.Redis.Memory.{memory, memory-IsRedis}
use project_collection.Models.{TbUser, no_user, TbSeckillVoucher}
use project_collection.Util.Random.{get_random_number_str}
use project_collection.VoucherOrder.{
  Clock, lock_order_key, lock_key, order_id, new_order, create_voucher_order, seckill_voucher,
}
use project_collection.VoucherOrder.Backing.{World}
use project_collection.VoucherOrder.Contract.{as_stored, take_one, fits_order}
use project_collection.VoucherOrder.Branches.{already_bought}
use project_collection.VoucherOrder.Memory.{Tables, tables, tables-IsStore}
use project_collection.VoucherOrder.Rows.{OnePerUser, NoDebt}
use project_collection.VoucherOrder.Orders.{Lost, bought}
use project_collection.VoucherOrder.Guarantees.{
  create_voucher_order-OnePerUser, create_voucher_order-NoDebt, create_voucher_order_locked_out,
  create_voucher_order_leaks_lock, create_voucher_order-sells, same_second_loses_stock, held_lock,
}
use project_collection.VoucherOrder.Window.{IsOpen, RefusedWith, seckill_voucher_window}

abbrev sevens : ℕ → ℕ → ℕ
sevens seed i = 7

abbrev noon : Clock
noon = record { now = pos 50; local_text = codes "20220830120000"; seconds = 1661832000 }

abbrev user : ℕ → TbUser
user n = record no_user { id = some (pos n) }

abbrev coupon : TbSeckillVoucher
coupon = record {
  voucher_id = some (pos 2);
  stock = some (pos 3);
  create_time = none;
  begin_time = some (pos 10);
  end_time = some (pos 90);
  update_time = none;
}

abbrev opening : World Keys Tables
opening = record { server = λ k. none; db = record { sale_rows = coupon ∷ []; order_rows = [] } }

-- The lock of user 1 is held.
abbrev busy : World Keys Tables
busy = record opening { server = put (lock_key (pos 1)) (some held_lock) (λ k. none) }

-- The id of an order placed at noon.
noon_id : order_id sevens noon ≡ pos 202208301200007777
unfolding order_id get_random_number_str atol digits_value digits codes
noon_id = refl

abbrev sold_to_one : World Keys Tables
sold_to_one = (create_voucher_order memory tables sevens noon (pos 2) (user 1) opening).1

noon_fits : fits_order (new_order (order_id sevens noon) (pos 1) (pos 2)) ≡ true
noon_fits = rw noon_id refl

first_sale :
    (t t' : ℤ) × ((create_voucher_order memory tables sevens noon (pos 2) (user 1) opening).0
      ≡ ok (order_id sevens noon))
    × (sold_to_one.db.order_rows
        ≡ as_stored t (new_order (order_id sevens noon) (pos 1) (pos 2)) ∷ [])
    × (sold_to_one.db.sale_rows ≡ map (take_one t' (pos 2)) (coupon ∷ []))
    × (sold_to_one.server (lock_key (pos 1)) ≡ none)
    × ((j : Text) → j ≢ lock_key (pos 1) → sold_to_one.server j ≡ none)
first_sale =
    create_voucher_order-sells memory tables sevens memory-IsRedis tables-IsStore noon (pos 2)
      (user 1) opening refl refl (λ e. cc) refl noon_fits

create_voucher_order-sells_example :
    (t t' : ℤ) × ((create_voucher_order memory tables sevens noon (pos 2) (user 1) opening).0
      ≡ ok (order_id sevens noon))
    × (sold_to_one.db.order_rows
        ≡ as_stored t (new_order (order_id sevens noon) (pos 1) (pos 2)) ∷ [])
    × (sold_to_one.db.sale_rows ≡ map (take_one t' (pos 2)) (coupon ∷ []))
    × (sold_to_one.server (lock_key (pos 1)) ≡ none)
    × ((j : Text) → j ≢ lock_key (pos 1) → sold_to_one.server j ≡ none)
create_voucher_order-sells_example =
    create_voucher_order-sells memory tables sevens memory-IsRedis tables-IsStore noon (pos 2)
      (user 1) opening refl refl (λ e. cc) refl noon_fits

create_voucher_order-OnePerUser_example : OnePerUser sold_to_one.db.order_rows
create_voucher_order-OnePerUser_example =
    create_voucher_order-OnePerUser memory tables sevens memory-IsRedis tables-IsStore noon (pos 2)
      (user 1) opening (λ u v. omega arith)

create_voucher_order-NoDebt_example : NoDebt sold_to_one.db.sale_rows
create_voucher_order-NoDebt_example =
    create_voucher_order-NoDebt memory tables sevens memory-IsRedis tables-IsStore noon (pos 2)
      (user 1) opening (omega arith)

create_voucher_order_locked_out_example :
    ((create_voucher_order memory tables sevens noon (pos 2) (user 1) busy).0
      ≡ raised (std_exception bad_cast))
    × ((create_voucher_order memory tables sevens noon (pos 2) (user 1) busy).1.db ≡ busy.db)
create_voucher_order_locked_out_example =
    create_voucher_order_locked_out memory tables sevens memory-IsRedis tables-IsStore noon (pos 2)
      (user 1) busy held_lock (rw (text_eq_refl (lock_key (pos 1))) refl)

-- User 1 has an order of voucher 2 already.
abbrev bought_before : World Keys Tables
bought_before = record opening {
  db = record opening.db { order_rows = new_order (pos 5) (pos 1) (pos 2) ∷ [] };
}

create_voucher_order_leaks_lock_example :
    (create_voucher_order memory tables sevens noon (pos 2) (user 1) bought_before).1.server
      (lock_key (pos 1))
    ≡ some held_lock
create_voucher_order_leaks_lock_example =
    create_voucher_order_leaks_lock memory tables sevens memory-IsRedis tables-IsStore noon (pos 2)
      (user 1) bought_before (business already_bought) refl
      (ap (λ p. p.0)
        (bought memory tables sevens memory-IsRedis tables-IsStore noon (pos 2) (user 1)
          bought_before refl (new_order (pos 5) (pos 1) (pos 2)) [] refl))

locks_differ : lock_key (pos 2) ≢ lock_key (pos 1)
locks_differ e =
    let same : ◌≡◌ {A = ℤ} (pos 2) (pos 1) =
      to_string-injective (pos 2) (pos 1) (append_cancel lock_order_key _ _ e) in
    cc

-- User 2 orders in the same second.
same_second_loses_stock_example :
    Lost tables
      (pos 2)
      (pos 2)
      sold_to_one
      (create_voucher_order memory tables sevens noon (pos 2) (user 2) sold_to_one)
unfolding ◌-ℤ◌
same_second_loses_stock_example =
    let (t, t', returned, orders, sales, free, others) = first_sale in
    same_second_loses_stock memory tables sevens memory-IsRedis tables-IsStore noon (pos 2) (user 1)
      (user 2) opening (order_id sevens noon) returned (others (lock_key (pos 2)) locks_differ)
      (rw orders refl) (rw sales (λ e. cc))

abbrev Shut : Text → Type 0
Shut d =
    RefusedWith memory tables sevens tables-IsStore.voucher_reads noon (pos 2) (user 1) opening d

-- The window is [10, 90], and the time is 50.
seckill_voucher_window_example :
    (IsOpen noon coupon
      × (seckill_voucher memory tables sevens noon (pos 2) (user 1) opening
          ≡ create_voucher_order memory tables sevens noon (pos 2) (user 1) opening))
    ⊎ ((¬ (pos 10 ≤ℤ pos 50)) × Shut (codes "秒杀尚未开始"))
    ⊎ ((pos 10 ≤ℤ pos 50) × (¬ (pos 50 ≤ℤ pos 90)) × Shut (codes "秒杀已经结束"))
    ⊎ ((pos 10 ≤ℤ pos 50) × (pos 50 ≤ℤ pos 90) × (¬ (pos 1 ≤ℤ pos 3)) × Shut (codes "库存不足"))
seckill_voucher_window_example =
    seckill_voucher_window memory tables sevens tables-IsStore.voucher_reads noon (pos 2) (user 1)
      opening coupon refl

opening_sale :
    (seckill_voucher memory tables sevens noon (pos 2) (user 1) opening).0
    ≡ ok (order_id sevens noon)
unfolding seckill_voucher
opening_sale = first_sale.2
