-- ===== src/VoucherOrder/Orders.antt =====
-- What one call of `createVoucherOrder` does to the tables, whatever it finds.
use project_collection.Base.{
  ℕ, ◌≡◌, refl, ◌∙◌, ap, sym, none, List, [], ◌∷◌, ◌++◌, map, Option-cases, List-cases, ◌⊎◌, inl,
  inr,
}
use project_collection.Base.Int.{ℤ}
use project_collection.Base.Text.{Text}
use project_collection.Common.{
  Outcome, ok, raised, Exception, std_exception, business, drogon_db_exception, handle,
}
use project_collection.Redis.{Redis, IsRedis, bad_cast, del}
use project_collection.Models.{TbUser, TbSeckillVoucher, TbVoucherOrder, number_of}
use project_collection.Database.{select}
use project_collection.VoucherOrder.{
  Clock, lock_key, order_id, new_order, is_order_of, rethrow, create_voucher_order,
}
use project_collection.VoucherOrder.Backing.{Store, World}
use project_collection.VoucherOrder.Contract.{
  IsStore, Added, NotAdded, sells, take_one, same_id, as_stored,
}
use project_collection.VoucherOrder.Statement.{decremented, decremented_orders}
use project_collection.VoucherOrder.Branches.{
  locked, taken, ordered, already_bought, no_stock, create_voucher_order_free,
  create_voucher_order_held, place_order_bought, place_order_sold_out, place_order-taken_id,
  place_order_done,
}
use project_collection.VoucherOrder.Rows.{map-take_one_none}

-- How a call by `user_id` for `voucher_id` that began at `w` can have ended.
module _ {Server Db : Type 0} (store : Store Db) (voucher_id user_id : ℤ)
    (w : World Server Db) where
  -- It threw, and both tables are as they were.
  abbrev pub Kept : Outcome ℤ × World Server Db → Type 0
  Kept (r, w') =
      (e : Exception) × (r ≡ raised e)
      × (store.orders.rows w'.db ≡ store.orders.rows w.db)
      × (store.vouchers.rows w'.db ≡ store.vouchers.rows w.db)

  -- One item was taken, at some time.
  abbrev pub Taken : World Server Db → Type 0
  Taken w' =
      (t : ℤ) × (store.vouchers.rows w'.db ≡ map (take_one t voucher_id) (store.vouchers.rows w.db))

  -- It returned the id under which the user's first order was added, and one item was taken.
  abbrev pub Sold : ℤ → Outcome ℤ × World Server Db → Type 0
  Sold id (r, w') =
      (r ≡ ok id)
      × (select (is_order_of user_id voucher_id) (store.orders.rows w.db) ≡ [])
      × ((t : ℤ) × (store.orders.rows w'.db
            ≡ store.orders.rows w.db ++ as_stored t (new_order id user_id voucher_id) ∷ []))
      × Taken w'

  -- It threw on the insertion, after one item was taken.
  abbrev pub Lost : Outcome ℤ × World Server Db → Type 0
  Lost (r, w') =
      (e : Text) × (r ≡ raised (drogon_db_exception e))
      × (store.orders.rows w'.db ≡ store.orders.rows w.db)
      × Taken w'

module _ {Server Db : Type 0} (redis : Redis Server) (store : Store Db) (rand : ℕ → ℕ → ℕ)
    (answers : IsRedis redis) (stored : IsStore store) (c : Clock) (voucher_id : ℤ) (u : TbUser)
    (w : World Server Db) where
  abbrev pub user_id : ℤ
  user_id = number_of u.id

  abbrev pub order : TbVoucherOrder
  order = new_order (order_id rand c) user_id voucher_id

  abbrev pub run : Outcome ℤ × World Server Db
  run = create_voucher_order redis store rand c voucher_id u w

  module _ (free : redis.keys w.server (lock_key user_id) ≡ none)
      (first : select (is_order_of user_id voucher_id) (store.orders.rows w.db) ≡ [])
      (v : TbSeckillVoucher) (vs : List TbSeckillVoucher)
      (left : select (sells voucher_id) (store.vouchers.rows w.db) ≡ v ∷ vs) where
    pub sold :
        Added store order (taken store voucher_id w.db)
        → run ≡ (
          ok (order_id rand c),
          record {
            server = (redis.send (del (lock_key user_id)) (locked redis user_id w).server).1;
            db = ordered store voucher_id order w.db;
          },
        )
    sold (t, added, rows) =
        create_voucher_order_free redis store rand answers c voucher_id u w free
        ∙ ap (handle (rethrow redis store rand)) (
            place_order_done redis store rand stored c voucher_id user_id (locked redis user_id w)
              first v vs left answers (as_stored t order) added)

    pub lost :
        (e : Text)
        → (store.orders.insert order (taken store voucher_id w.db)).0
          ≡ raised (drogon_db_exception e)
        → run ≡ (
          raised (drogon_db_exception e),
          record w {
            server = (locked redis user_id w).server;
            db = ordered store voucher_id order w.db;
          },
        )
    unfolding rethrow
    lost e clash =
        create_voucher_order_free redis store rand answers c voucher_id u w free
        ∙ ap (handle (rethrow redis store rand)) (
            place_order-taken_id redis store rand stored c voucher_id user_id
              (locked redis user_id w) first v vs left e clash)

    taken_after :
        (store.vouchers.rows (ordered store voucher_id order w.db)
          ≡ store.vouchers.rows (taken store voucher_id w.db))
    taken_after = stored.insert_vouchers order (taken store voucher_id w.db)

    pub refused_loses :
        NotAdded store order (taken store voucher_id w.db) → Lost store voucher_id user_id w run
    refused_loses (e, threw, kept) =
        let (t, affected, rows) = decremented store stored voucher_id w.db in
        rw (lost e threw)
          (e, refl, kept ∙ decremented_orders store stored voucher_id w.db, (t, taken_after ∙ rows))

    -- An id that is in the table already costs the item that was taken.
    pub clash_loses :
        (o : TbVoucherOrder) (os : List TbVoucherOrder)
        → select (same_id order) (store.orders.rows w.db) ≡ o ∷ os
        → Lost store voucher_id user_id w run
    clash_loses o os clash =
        let d = taken store voucher_id w.db in
        let same =
          ap (select (same_id order)) (decremented_orders store stored voucher_id w.db) ∙ clash in
        elim (stored.inserted order d) [
          | inl (fresh, added) ↦ absurd (let full : o ∷ os ≡ [] = sym same ∙ fresh in cc)
          | inr (why, refused) ↦ refused_loses refused
        ]

    -- With an item left and no order yet, the table decides.
    insertion :
        Sold store voucher_id user_id w (order_id rand c) run ⊎ Lost store voucher_id user_id w run
    insertion =
        let d = taken store voucher_id w.db in
        elim (stored.inserted order d) [
          | inl (fresh, added) ↦
              let (t, returned, kept) = added in
              let (t', affected, rows) = decremented store stored voucher_id w.db in
              inl (
                rw (sold added) (
                  refl,
                  first,
                  (
                    t,
                    kept
                        ∙ ap (λ os. os ++ as_stored t order ∷ [])
                            (decremented_orders store stored voucher_id w.db),
                  ),
                  (t', taken_after ∙ rows),
                ))
          | inr (why, refused) ↦ inr (refused_loses refused)
        ]

  module _ (free : redis.keys w.server (lock_key user_id) ≡ none) where
    pub bought :
        (o : TbVoucherOrder) (os : List TbVoucherOrder)
        → select (is_order_of user_id voucher_id) (store.orders.rows w.db) ≡ o ∷ os
        → run ≡ (raised (business already_bought), locked redis user_id w)
    unfolding rethrow
    bought o os found =
        create_voucher_order_free redis store rand answers c voucher_id u w free
        ∙ ap (handle (rethrow redis store rand)) (
            place_order_bought redis store rand stored c voucher_id user_id (locked redis user_id w)
              o os found)

    pub sold_out :
        select (is_order_of user_id voucher_id) (store.orders.rows w.db) ≡ []
        → select (sells voucher_id) (store.vouchers.rows w.db) ≡ []
        → run ≡ (
          raised (business no_stock),
          record (locked redis user_id w) { db = taken store voucher_id w.db },
        )
    unfolding rethrow
    sold_out first none_left =
        create_voucher_order_free redis store rand answers c voucher_id u w free
        ∙ ap (handle (rethrow redis store rand)) (
            place_order_sold_out redis store rand stored c voucher_id user_id
              (locked redis user_id w) first none_left)

    free_cases :
        Kept store voucher_id user_id w run
        ⊎ Sold store voucher_id user_id w (order_id rand c) run
        ⊎ Lost store voucher_id user_id w run
    free_cases =
        elim (List-cases (select (is_order_of user_id voucher_id) (store.orders.rows w.db))) [
          | inr (o, os, found) ↦
              inl (rw (bought o os found) (business already_bought, refl, refl, refl))
          | inl first ↦ elim (List-cases (select (sells voucher_id) (store.vouchers.rows w.db))) [
            | inl none_left ↦
                (let (t, affected, rows) = decremented store stored voucher_id w.db in
                  inl (
                    rw (sold_out first none_left) (
                      business no_stock,
                      refl,
                      decremented_orders store stored voucher_id w.db,
                      rows ∙ map-take_one_none t voucher_id (store.vouchers.rows w.db) none_left,
                    )))
            | inr (v, vs, left) ↦ inr (insertion free first v vs left)
          ]
        ]

  -- Every call ends in one of the three ways.
  pub create_voucher_order_cases :
      Kept store voucher_id user_id w run
      ⊎ Sold store voucher_id user_id w (order_id rand c) run
      ⊎ Lost store voucher_id user_id w run
  create_voucher_order_cases = elim (Option-cases (redis.keys w.server (lock_key user_id))) [
    | inl free ↦ free_cases free
    | inr (e, held) ↦ inl (
        rw (create_voucher_order_held redis store rand answers c voucher_id u w e held)
          (std_exception bad_cast, refl, refl, refl))
  ]
