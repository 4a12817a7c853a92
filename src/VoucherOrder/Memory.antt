-- ===== src/VoucherOrder/Memory.antt =====
-- A database of two lists, which shows that the documented behaviour can be met.
use project_collection.Base.{
  ℕ, ◌≡◌, ◌≢◌, refl, List, [], ◌∷◌, ◌++◌, map, Option, some, none, false, ◌==◌, if◌then◌else◌, ◌⊎◌,
  length, drop, List-cases, inl, inr,
}
use project_collection.Base.Int.{ℤ, pos, pos_part}
use project_collection.Base.Text.{Text, codes, to_string, atol, atol-to_string_before}
use project_collection.Common.{Outcome, ok, raised, Action, drogon_db_exception}
use project_collection.Models.{TbSeckillVoucher, TbVoucherOrder}
use project_collection.Database.Memory.{reader, reader-IsReader}
use project_collection.Database.{select}
use project_collection.VoucherOrder.Backing.{Store}
use project_collection.VoucherOrder.Contract.{
  IsStore, Added, NotAdded, named, take_if, same_id, as_stored, fits_order, update_sql,
}

pub record Tables : Type 0 where
  pub sale_rows : List TbSeckillVoucher
  pub order_rows : List TbVoucherOrder

-- The clock of the database stands still.
abbrev add_unless : List TbVoucherOrder → TbVoucherOrder → Tables → Outcome TbVoucherOrder × Tables
add_unless [] o d =
    (ok (as_stored (pos 0) o), record d { order_rows = d.order_rows ++ as_stored (pos 0) o ∷ [] })
add_unless (_ ∷ _) o d = (raised (drogon_db_exception (codes "Duplicate entry")), d)

abbrev add_order : TbVoucherOrder → Action Tables TbVoucherOrder
add_order o d = add_unless (select (same_id o) d.order_rows) o d

-- What a statement says: the number stands behind 61 characters, and its end tells the bound, which
-- has 11 characters before it.
abbrev bound_of : Text → Option ℕ
bound_of (c ∷ rest) = if c == 59 then none else some (pos_part (atol (drop 10 rest)))
bound_of [] = none

unfoldable pub run_sql : Text → Action Tables ℕ
unfolding atol
run_sql q d =
    let id = atol (drop 61 q) in
    let p = named id (bound_of (drop (length (to_string id)) (drop 61 q))) in
    (
      ok (length (select p d.sale_rows)),
      record d { sale_rows = map (take_if p (pos 0)) d.sale_rows },
    )

abbrev pub tables : Store Tables
tables = record {
  vouchers = reader (λ d. d.sale_rows) (λ v d. (ok v, d));
  orders = reader (λ d. d.order_rows) add_order;
  execute_sql = run_sql;
}

drop-length : (xs ys : Text) → drop (length xs) (xs ++ ys) ≡ ys
drop-length [] ys = refl
drop-length (x ∷ xs) ys = drop-length xs ys

number_in_sql : (id : ℤ) (bound : Option ℕ) → atol (drop 61 (update_sql id bound)) ≡ id
unfolding update_sql codes
number_in_sql id none = atol-to_string_before id 59 _ refl
number_in_sql id (some n) = atol-to_string_before id 32 _ refl

bound_in_sql :
    (id : ℤ) (bound : Option ℕ)
    → bound_of (drop (length (to_string id)) (drop 61 (update_sql id bound))) ≡ bound
unfolding update_sql codes
bound_in_sql id none = rw (drop-length (to_string id) (codes ";")) refl
bound_in_sql id (some n) =
    rw
      (
        drop-length (to_string id) (codes " and stock>" ++ (to_string (pos n) ++ codes ";")),
        atol-to_string_before (pos n) 59 [] refl,
      )
      refl

add_order-Added :
    (o : TbVoucherOrder) (d : Tables)
    → ((select (same_id o) d.order_rows ≡ []) × Added tables o d)
      ⊎ (((select (same_id o) d.order_rows ≢ []) ⊎ (fits_order o ≡ false)) × NotAdded tables o d)
add_order-Added o d = elim (List-cases (select (same_id o) d.order_rows)) [
  | inl free ↦ inl (free, (pos 0, rw free refl, rw free refl))
  | inr (p, ps, e) ↦ inr (inl (λ free. cc), (codes "Duplicate entry", rw e refl, rw e refl))
]

add_order_sale_rows : (o : TbVoucherOrder) (d : Tables) → (add_order o d).1.sale_rows ≡ d.sale_rows
add_order_sale_rows o d = elim (List-cases (select (same_id o) d.order_rows)) [
  | inl free ↦ rw free refl
  | inr (p, ps, e) ↦ rw e refl
]

pub tables-IsStore : IsStore tables
unfolding run_sql
tables-IsStore = record {
  voucher_reads = reader-IsReader (λ d. d.sale_rows) (λ v d. (ok v, d));
  order_reads = reader-IsReader (λ d. d.order_rows) add_order;
  updated = λ id bound d takeable. (
    pos 0,
    rw (number_in_sql id bound, bound_in_sql id bound) refl,
    rw (number_in_sql id bound, bound_in_sql id bound) refl,
  );
  updated_orders = λ id bound d. refl;
  inserted = add_order-Added;
  insert_vouchers = add_order_sale_rows;
}
