-- ===== src/VoucherOrder/Contract.antt =====
-- What the order service relies on of MySQL, with the tables of drogon/hmdp-cpp-backend/sql/hmdp.sql.
use project_collection.Base.{
  ℕ, ◌≡◌, ◌≢◌, Bool, false, ◌&&◌, [], ◌∷◌, ◌++◌, Option, some, none, map, length, All, ◌⊎◌,
  if◌then◌else◌,
}
use project_collection.Base.Int.{ℤ, pos, negsuc, ◌-ℤ◌, ◌≤ℤ◌, ltb_ℤ, leb_ℤ}
use project_collection.Base.Text.{Text, codes, to_string}
use project_collection.Common.{ok, raised, drogon_db_exception}
use project_collection.Models.{TbSeckillVoucher, TbVoucherOrder, number_of, is_number}
use project_collection.Database.{IsReader, select}
use project_collection.VoucherOrder.Backing.{Store}

-- The statements that take one item off a stock: for the rows of a voucher, which may also have to
-- have a stock above a bound.
abbrev bound_sql : Option ℕ → Text
bound_sql none = codes ";"
bound_sql (some n) = codes " and stock>" ++ (to_string (pos n) ++ codes ";")

unfoldable pub update_sql : ℤ → Option ℕ → Text
update_sql voucher_id bound =
    codes "update tb_seckill_voucher set stock=stock-1 where voucher_id="
    ++ (to_string voucher_id ++ bound_sql bound)

-- The rows that such a statement names.
abbrev pub named : ℤ → Option ℕ → TbSeckillVoucher → Bool
named voucher_id none v = is_number v.voucher_id voucher_id
named voucher_id (some n) v = is_number v.voucher_id voucher_id && ltb_ℤ (pos n) (number_of v.stock)

abbrev pub sells : ℤ → TbSeckillVoucher → Bool
sells voucher_id v = is_number v.voucher_id voucher_id && ltb_ℤ (pos 0) (number_of v.stock)

-- `set stock=stock-1` at the time t, which becomes the time of the last update.
abbrev pub take_if : (TbSeckillVoucher → Bool) → ℤ → TbSeckillVoucher → TbSeckillVoucher
take_if p t v =
    if p v then record v { stock = some (number_of v.stock -ℤ pos 1); update_time = some t } else v

abbrev pub take_one : ℤ → ℤ → TbSeckillVoucher → TbSeckillVoucher
take_one t voucher_id v = take_if (sells voucher_id) t v

-- A stock of 32 bits from which one can be taken.
abbrev pub IsTakeable : TbSeckillVoucher → Type 0
IsTakeable v = negsuc 2147483646 ≤ℤ number_of v.stock

-- A new row of tb_voucher_order at the time t: four columns have defaults.
abbrev or_default : ℤ → Option ℤ → Option ℤ
or_default z none = some z
or_default z (some y) = some y

abbrev pub as_stored : ℤ → TbVoucherOrder → TbVoucherOrder
as_stored t o = record o {
  pay_type = or_default (pos 1) o.pay_type;
  status = or_default (pos 1) o.status;
  create_time = or_default t o.create_time;
  update_time = or_default t o.update_time;
}

abbrev is_in : (ℤ → Bool) → Option ℤ → Bool
is_in p none = false
is_in p (some z) = p z

-- The three columns that must be set, with the bounds of their types.
abbrev pub fits_order : TbVoucherOrder → Bool
fits_order o =
    is_in (λ z. leb_ℤ (negsuc 9223372036854775807) z && leb_ℤ z (pos 9223372036854775807)) o.id
    && (is_in (λ z. leb_ℤ (pos 0) z && leb_ℤ z (pos 18446744073709551615)) o.user_id
        && is_in (λ z. leb_ℤ (pos 0) z && leb_ℤ z (pos 18446744073709551615)) o.voucher_id)

abbrev pub same_id : TbVoucherOrder → TbVoucherOrder → Bool
same_id o p = is_number p.id (number_of o.id)

module _ {Db : Type 0} (store : Store Db) (o : TbVoucherOrder) (d : Db) where
  -- The row was added, at some time.
  abbrev pub Added : Type 0
  Added =
      (t : ℤ) × ((store.orders.insert o d).0 ≡ ok (as_stored t o))
      × (store.orders.rows (store.orders.insert o d).1 ≡ store.orders.rows d ++ as_stored t o ∷ [])

  abbrev pub NotAdded : Type 0
  NotAdded =
      (e : Text) × ((store.orders.insert o d).0 ≡ raised (drogon_db_exception e))
      × (store.orders.rows (store.orders.insert o d).1 ≡ store.orders.rows d)

-- The documented behaviour of the statements and of an insertion under the primary key `id`. An
-- insertion is refused for an id that is in the table, and can be refused for a value out of bounds.
pub record IsStore {Db : Type 0} (store : Store Db) : Type 0 where
  pub voucher_reads : IsReader store.vouchers
  pub order_reads : IsReader store.orders
  pub updated :
      (id : ℤ) (bound : Option ℕ) (d : Db)
      → All IsTakeable (select (named id bound) (store.vouchers.rows d))
      → (t : ℤ) × ((store.execute_sql (update_sql id bound) d).0
          ≡ ok (length (select (named id bound) (store.vouchers.rows d))))
        × (store.vouchers.rows (store.execute_sql (update_sql id bound) d).1
            ≡ map (take_if (named id bound) t) (store.vouchers.rows d))
  pub updated_orders :
      (id : ℤ) (bound : Option ℕ) (d : Db)
      → store.orders.rows (store.execute_sql (update_sql id bound) d).1 ≡ store.orders.rows d
  pub inserted :
      (o : TbVoucherOrder) (d : Db)
      → ((select (same_id o) (store.orders.rows d) ≡ []) × Added store o d)
        ⊎ (((select (same_id o) (store.orders.rows d) ≢ []) ⊎ (fits_order o ≡ false))
            × NotAdded store o d)
  pub insert_vouchers :
      (o : TbVoucherOrder) (d : Db)
      → store.vouchers.rows (store.orders.insert o d).1 ≡ store.vouchers.rows d
