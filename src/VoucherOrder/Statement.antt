-- ===== src/VoucherOrder/Statement.antt =====
-- The statement that createVoucherOrder sends: it names only rows with an item left.
use project_collection.Base.{
  ◌≡◌, refl, true, List, [], ◌∷◌, some, map, length, All, arith, Bool-cases, inl, inr,
}
use project_collection.Base.Int.{ℤ, pos, ltb_ℤ}
use project_collection.Base.Text.{codes, to_string, digits}
use project_collection.Common.{ok}
use project_collection.Models.{TbSeckillVoucher, number_of, is_number}
use mathlib.Core.Bool.{and-eq-true_iff}
use project_collection.Database.{select}
use project_collection.VoucherOrder.{decrement_sql}
use project_collection.VoucherOrder.Backing.{Store}
use project_collection.VoucherOrder.Contract.{IsStore, IsTakeable, update_sql, sells, take_one}

decrement_sql-update_sql : (id : ℤ) → decrement_sql id ≡ update_sql id (some 0)
unfolding decrement_sql update_sql codes to_string digits
decrement_sql-update_sql id = refl

sells-IsTakeable : (id : ℤ) (vs : List TbSeckillVoucher) → All IsTakeable (select (sells id) vs)
sells-IsTakeable id [] = tt
sells-IsTakeable id (v ∷ vs) = elim (Bool-cases (sells id v)) [
  | inl hit ↦
      let left : ltb_ℤ (pos 0) (number_of v.stock) ≡ true =
        ((and-eq-true_iff (is_number v.voucher_id id) (ltb_ℤ (pos 0) (number_of v.stock))).0
          hit).1 in
      rw hit (ground arith, sells-IsTakeable id vs)
  | inr miss ↦ rw miss (sells-IsTakeable id vs)
]

module _ {Db : Type 0} (store : Store Db) (stored : IsStore store) (id : ℤ) (d : Db) where
  pub decremented :
      (t : ℤ) × ((store.execute_sql (decrement_sql id) d).0
        ≡ ok (length (select (sells id) (store.vouchers.rows d))))
      × (store.vouchers.rows (store.execute_sql (decrement_sql id) d).1
          ≡ map (take_one t id) (store.vouchers.rows d))
  decremented =
      rw (decrement_sql-update_sql id)
        (stored.updated id (some 0) d (sells-IsTakeable id (store.vouchers.rows d)))

  pub decremented_orders :
      store.orders.rows (store.execute_sql (decrement_sql id) d).1 ≡ store.orders.rows d
  decremented_orders = rw (decrement_sql-update_sql id) (stored.updated_orders id (some 0) d)
