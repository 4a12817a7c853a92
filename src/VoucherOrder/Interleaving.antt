-- ===== src/VoucherOrder/Interleaving.antt =====
-- Requests of `createVoucherOrder` for one voucher that run at the same time. A step is one call of
-- Redis or of the database by one request; between two steps any other request may take its own.
pub mod Invariant
pub mod Exclusion
pub mod Expiry
pub mod Progress
mod Tests
use project_collection.Base.{
  ℕ, ◌≡◌, ◌≢◌, Bool, true, false, List, [], ◌∷◌, ◌++◌, Option, none, some, map, ◌==◌, if◌then◌else◌,
}
use project_collection.Base.Int.{ℤ}
use project_collection.Base.Text.{Text, codes}
use project_collection.Redis.{Keys, Entry, put}
use project_collection.Models.{TbSeckillVoucher, TbVoucherOrder}
use project_collection.Database.{select}
use project_collection.VoucherOrder.{lock_key, is_order_of, new_order}
use project_collection.VoucherOrder.Contract.{sells, take_one, same_id, as_stored}
use project_collection.VoucherOrder.Guarantees.{held_lock}

-- Where a request is: before the lock, behind it, after the query for an order, after the stock was
-- taken, after the order went in, and at its end.
pub data Phase : Type 0 where
  begins locked checked taken inserted returned failed : Phase

pub record Request : Type 0 where
  pub user_id : ℤ
  pub id : ℤ
  pub phase : Phase

-- The requests by number, the keys of Redis, and the two tables.
pub record State : Type 0 where
  pub requests : ℕ → Request
  pub keys : Keys
  pub sale_rows : List TbSeckillVoucher
  pub order_rows : List TbVoucherOrder

abbrev pub moved : State → ℕ → Phase → ℕ → Request
moved s i p j = record (s.requests j) { phase = if i == j then p else (s.requests j).phase }

abbrev pub key_of : State → ℕ → Text
key_of s i = lock_key (s.requests i).user_id

module _ (voucher_id : ℤ) where
  -- The order that request i would insert.
  abbrev pub order_of : State → ℕ → TbVoucherOrder
  order_of s i = new_order (s.requests i).id (s.requests i).user_id voucher_id

  -- The user's orders of the voucher.
  abbrev pub orders_of : State → ℕ → List TbVoucherOrder
  orders_of s i = select (is_order_of (s.requests i).user_id voucher_id) s.order_rows

  pub data Step (s : State) : State → Type 0 where
    lock :
        (i : ℕ)
        → (s.requests i).phase ≡ begins
        → s.keys (key_of s i) ≡ none
        → Step s (record s {
          requests = moved s i locked;
          keys = put (key_of s i) (some held_lock) s.keys;
        })
    refuse :
        (i : ℕ)
        → (s.requests i).phase ≡ begins
        → s.keys (key_of s i) ≢ none
        → Step s (record s { requests = moved s i failed })
    find_none :
        (i : ℕ)
        → (s.requests i).phase ≡ locked
        → orders_of s i ≡ []
        → Step s (record s { requests = moved s i checked })
    find_order :
        (i : ℕ)
        → (s.requests i).phase ≡ locked
        → orders_of s i ≢ []
        → Step s (record s { requests = moved s i failed })
    take :
        (i : ℕ) (t : ℤ)
        → (s.requests i).phase ≡ checked
        → select (sells voucher_id) s.sale_rows ≢ []
        → Step s (record s {
          requests = moved s i taken;
          sale_rows = map (take_one t voucher_id) s.sale_rows;
        })
    sold_out :
        (i : ℕ)
        → (s.requests i).phase ≡ checked
        → select (sells voucher_id) s.sale_rows ≡ []
        → Step s (record s { requests = moved s i failed })
    insert :
        (i : ℕ) (t : ℤ)
        → (s.requests i).phase ≡ taken
        → select (same_id (order_of s i)) s.order_rows ≡ []
        → Step s (record s {
          requests = moved s i inserted;
          order_rows = s.order_rows ++ as_stored t (order_of s i) ∷ [];
        })
    clash :
        (i : ℕ)
        → (s.requests i).phase ≡ taken
        → select (same_id (order_of s i)) s.order_rows ≢ []
        → Step s (record s { requests = moved s i failed })
    unlock :
        (i : ℕ)
        → (s.requests i).phase ≡ inserted
        → Step s (record s { requests = moved s i returned; keys = put (key_of s i) none s.keys })

  pub data Reach (s : State) : State → Type 0 where
    here : Reach s s
    next : {t u : State} → Reach s t → Step t u → Reach s u
