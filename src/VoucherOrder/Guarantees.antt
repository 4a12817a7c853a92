-- ===== src/VoucherOrder/Guarantees.antt =====
-- What the order service guarantees of the tables and of the lock, call by call.
use project_collection.Base.{
  ℕ, ◌≡◌, ◌≢◌, refl, ◌∙◌, ap, sym, none, some, true, false, List, [], ◌∷◌, ◌++◌, map, List-cases,
  inl, inr,
}
use project_collection.Base.Int.{ℤ}
use project_collection.Base.Text.{Text, codes, text_eq_ne, text_eq_refl}
use project_collection.Common.{Outcome, ok, raised, Exception, std_exception}
use project_collection.Redis.{Redis, IsRedis, Entry, string, bad_cast, del, set}
use project_collection.Models.{TbUser, TbSeckillVoucher, TbVoucherOrder, number_of, eqb_ℤ_refl}
use project_collection.Database.{select}
use project_collection.VoucherOrder.{
  Clock, lock_key, lock_order_ttl, order_id, new_order, is_order_of, create_voucher_order,
}
use project_collection.VoucherOrder.Backing.{Store, World}
use project_collection.VoucherOrder.Contract.{
  IsStore, Added, sells, take_one, same_id, as_stored, fits_order,
}
use project_collection.VoucherOrder.Statement.{decremented, decremented_orders}
use project_collection.VoucherOrder.Branches.{locked, taken, create_voucher_order_held}
use project_collection.VoucherOrder.Rows.{
  OnePerUser, OnePerUser-concat, NoDebt, take_one-NoDebt, select-concat_some,
}
use project_collection.VoucherOrder.Orders.{
  Lost, create_voucher_order_cases, clash_loses, sold, lost, bought, sold_out,
}

-- What the lock key holds: "1", for ten seconds.
abbrev pub held_lock : Entry
held_lock = record { content = string (codes "1"); expires = some lock_order_ttl }

module _ {Server Db : Type 0} (redis : Redis Server) (store : Store Db) (rand : ℕ → ℕ → ℕ)
    (answers : IsRedis redis) (stored : IsStore store) (c : Clock) (voucher_id : ℤ) (u : TbUser)
    (w : World Server Db) where
  abbrev after : World Server Db
  after = (create_voucher_order redis store rand c voucher_id u w).1

  -- If no user has two orders of one voucher before a call, then none has after it, however the
  -- call ends.
  pub create_voucher_order-OnePerUser :
      OnePerUser (store.orders.rows w.db) → OnePerUser (store.orders.rows after.db)
  create_voucher_order-OnePerUser once =
      elim (create_voucher_order_cases redis store rand answers stored c voucher_id u w) [
        | inl kept ↦ rw kept.2 once
        | inr (inl (returned, first, (t, grown), left)) ↦ rw grown (
            OnePerUser-concat t (order_id rand c) (number_of u.id) voucher_id
              (store.orders.rows w.db) first once)
        | inr (inr failed) ↦ rw failed.2 once
      ]

  -- If no stock is negative before a call, then none is after it, however the call ends: the sale
  -- never oversells.
  pub create_voucher_order-NoDebt :
      NoDebt (store.vouchers.rows w.db) → NoDebt (store.vouchers.rows after.db)
  create_voucher_order-NoDebt fine =
      elim (create_voucher_order_cases redis store rand answers stored c voucher_id u w) [
        | inl kept ↦ rw kept.3 fine
        | inr (inl (returned, first, grown, (t, left))) ↦
            rw left (take_one-NoDebt t voucher_id (store.vouchers.rows w.db) fine)
        | inr (inr (e, threw, same, (t, left))) ↦
            rw left (take_one-NoDebt t voucher_id (store.vouchers.rows w.db) fine)
      ]

  -- With the lock key held the call throws the cast exception, which no handler of the service or
  -- the controllers names, and changes neither table.
  pub create_voucher_order_locked_out :
      (e : Entry)
      → redis.keys w.server (lock_key (number_of u.id)) ≡ some e
      → (create_voucher_order redis store rand c voucher_id u w).0 ≡ raised (std_exception bad_cast)
        × (after.db ≡ w.db)
  create_voucher_order_locked_out e held =
      let run = create_voucher_order_held redis store rand answers c voucher_id u w e held in
      (ap (λ p. p.0) run, ap (λ p. p.1.db) run)

  lock_set :
      redis.keys w.server (lock_key (number_of u.id)) ≡ none
      → redis.keys (locked redis (number_of u.id) w).server (lock_key (number_of u.id))
        ≡ some held_lock
  lock_set free =
      answers.effects (set (lock_key (number_of u.id)) (codes "1") false lock_order_ttl) w.server
        (lock_key (number_of u.id))
      ∙ rw (text_eq_refl (lock_key (number_of u.id)), free) refl

  -- A call that took the lock and then throws leaves the lock key behind, with its ten seconds to
  -- run: no error path of `createVoucherOrder` releases it.
  pub create_voucher_order_leaks_lock :
      (e : Exception)
      → redis.keys w.server (lock_key (number_of u.id)) ≡ none
      → (create_voucher_order redis store rand c voucher_id u w).0 ≡ raised e
      → redis.keys after.server (lock_key (number_of u.id)) ≡ some held_lock
  create_voucher_order_leaks_lock e free threw =
      elim (List-cases
        (select (is_order_of (number_of u.id) voucher_id) (store.orders.rows w.db))) [
          | inr (o, os, found) ↦
              kept_lock (bought redis store rand answers stored c voucher_id u w free o os found)
          | inl first ↦ elim (List-cases (select (sells voucher_id) (store.vouchers.rows w.db))) [
            | inl none_left ↦
                kept_lock
                  (sold_out redis store rand answers stored c voucher_id u w free first none_left)
            | inr (v, vs, left) ↦ inserted first v vs left
          ]
        ]
    where
      kept_lock :
          {r : Outcome ℤ} {d : Db}
          → create_voucher_order redis store rand c voucher_id u w
            ≡ (r, record w { server = (locked redis (number_of u.id) w).server; db = d })
          → redis.keys after.server (lock_key (number_of u.id)) ≡ some held_lock
      kept_lock run =
          ap (λ p. redis.keys p.1.server (lock_key (number_of u.id))) run ∙ lock_set free

      inserted :
          select (is_order_of (number_of u.id) voucher_id) (store.orders.rows w.db) ≡ []
          → (v : TbSeckillVoucher) (vs : List TbSeckillVoucher)
          → select (sells voucher_id) (store.vouchers.rows w.db) ≡ v ∷ vs
          → redis.keys after.server (lock_key (number_of u.id)) ≡ some held_lock
      inserted first v vs left =
          let o = new_order (order_id rand c) (number_of u.id) voucher_id in
          let d = taken store voucher_id w.db in
          elim (stored.inserted o d) [
            | inl (fresh, added) ↦
                let done =
                  ap (λ p. p.0)
                    (sold redis store rand answers stored c voucher_id u w free first v vs left
                      added) in
                cc
            | inr (why, (m, refused, kept)) ↦ kept_lock (
                lost redis store rand answers stored c voucher_id u w free first v vs left m
                  refused)
          ]

  -- A first order of a user, with an item in stock, the lock free, an id that is not taken, and ids
  -- within the bounds of the columns: the call returns the id, adds exactly that order, its other
  -- columns filled by the table, takes one item off the rows of the voucher, and leaves the lock free
  -- and every other key of Redis alone.
  pub create_voucher_order-sells :
      redis.keys w.server (lock_key (number_of u.id)) ≡ none
      → select (is_order_of (number_of u.id) voucher_id) (store.orders.rows w.db) ≡ []
      → select (sells voucher_id) (store.vouchers.rows w.db) ≢ []
      → select
          (same_id (new_order (order_id rand c) (number_of u.id) voucher_id))
          (store.orders.rows w.db)
        ≡ []
      → fits_order (new_order (order_id rand c) (number_of u.id) voucher_id) ≡ true
      → (t t' : ℤ) × ((create_voucher_order redis store rand c voucher_id u w).0
          ≡ ok (order_id rand c))
        × (store.orders.rows after.db
            ≡ store.orders.rows w.db
              ++ as_stored t (new_order (order_id rand c) (number_of u.id) voucher_id) ∷ [])
        × (store.vouchers.rows after.db ≡ map (take_one t' voucher_id) (store.vouchers.rows w.db))
        × (redis.keys after.server (lock_key (number_of u.id)) ≡ none)
        × ((j : Text)
            → j ≢ lock_key (number_of u.id)
            → redis.keys after.server j ≡ redis.keys w.server j)
  create_voucher_order-sells free first some_left fresh fits =
      elim (List-cases (select (sells voucher_id) (store.vouchers.rows w.db))) [
        | inl nothing ↦ absurd (some_left nothing)
        | inr (v, vs, left) ↦ sale v vs left
      ]
    where
      k : Text
      k = lock_key (number_of u.id)

      o : TbVoucherOrder
      o = new_order (order_id rand c) (number_of u.id) voucher_id

      d : Db
      d = taken store voucher_id w.db

      set_server : Server
      set_server = (locked redis (number_of u.id) w).server

      others :
          (j : Text)
          → j ≢ k
          → redis.keys (redis.send (del k) set_server).1 j ≡ redis.keys w.server j
      others j other =
          let miss = text_eq_ne k j (λ e. other (sym e)) in
          answers.effects (del k) set_server j
          ∙ rw miss
              (answers.effects (set k (codes "1") false lock_order_ttl) w.server j ∙ rw miss refl)

      accepted : select (same_id o) (store.orders.rows d) ≡ [] → Added store o d
      accepted still = elim (stored.inserted o d) [
        | inl (new, added) ↦ added
        | inr (inl clash, refused) ↦ absurd (clash still)
        | inr (inr narrow, refused) ↦ absurd (cc)
      ]

      sale :
          (v : TbSeckillVoucher) (vs : List TbSeckillVoucher)
          → select (sells voucher_id) (store.vouchers.rows w.db) ≡ v ∷ vs
          → (t t' : ℤ) × ((create_voucher_order redis store rand c voucher_id u w).0
              ≡ ok (order_id rand c))
            × (store.orders.rows after.db ≡ store.orders.rows w.db ++ as_stored t o ∷ [])
            × (store.vouchers.rows after.db
                ≡ map (take_one t' voucher_id) (store.vouchers.rows w.db))
            × (redis.keys after.server k ≡ none)
            × ((j : Text) → j ≢ k → redis.keys after.server j ≡ redis.keys w.server j)
      sale v vs left =
          let orders_left = decremented_orders store stored voucher_id w.db in
          let still = ap (select (same_id o)) orders_left ∙ fresh in
          let (t, returned, kept) = accepted still in
          let (t', affected, rows) = decremented store stored voucher_id w.db in
          let run =
            sold redis store rand answers stored c voucher_id u w free first v vs left
              (t, returned, kept) in
          (
            t,
            t',
            ap (λ p. p.0) run,
            ap (λ p. store.orders.rows p.1.db) run
                ∙ kept
                ∙ ap (λ os. os ++ as_stored t o ∷ []) orders_left,
            ap (λ p. store.vouchers.rows p.1.db) run ∙ stored.insert_vouchers o d ∙ rows,
            ap (λ p. redis.keys p.1.server k) run
                ∙ answers.effects (del k) set_server k
                ∙ rw (text_eq_refl k) refl,
            λ j other. ap (λ p. redis.keys p.1.server j) run ∙ others j other,
          )

-- Two users who order in the same second get the same order id, since the random digits are seeded
-- by that second.
module _ {Server Db : Type 0} (redis : Redis Server) (store : Store Db) (rand : ℕ → ℕ → ℕ)
    (answers : IsRedis redis) (stored : IsStore store) (c : Clock) (voucher_id : ℤ) (u u' : TbUser)
    (w : World Server Db) where
  abbrev between : World Server Db
  between = (create_voucher_order redis store rand c voucher_id u w).1

  -- After a successful order, another user's first order under the same readings of the clock fails
  -- with the database's exception although an item is left and the lock is free: the item is taken
  -- off the stock, which changes the time of its last update, and no order is added.
  pub same_second_loses_stock :
      (id : ℤ)
      → (create_voucher_order redis store rand c voucher_id u w).0 ≡ ok id
      → redis.keys between.server (lock_key (number_of u'.id)) ≡ none
      → select (is_order_of (number_of u'.id) voucher_id) (store.orders.rows between.db) ≡ []
      → select (sells voucher_id) (store.vouchers.rows between.db) ≢ []
      → Lost store voucher_id
          (number_of u'.id)
          between
          (create_voucher_order redis store rand c voucher_id u' between)
  same_second_loses_stock id first_ok free first some_left =
      elim (create_voucher_order_cases redis store rand answers stored c voucher_id u w) [
        | inl kept ↦ let threw = kept.1 in cc
        | inr (inl (returned, none_yet, (t, grown), left)) ↦ second t grown
        | inr (inr failed) ↦ let threw = failed.1 in cc
      ]
    where
      second :
          (t : ℤ)
          → store.orders.rows between.db
            ≡ store.orders.rows w.db
              ++ as_stored t (new_order (order_id rand c) (number_of u.id) voucher_id) ∷ []
          → Lost store voucher_id
              (number_of u'.id)
              between
              (create_voucher_order redis store rand c voucher_id u' between)
      second t grown =
          let p = same_id (new_order (order_id rand c) (number_of u'.id) voucher_id) in
          let (o, os, clash) =
            select-concat_some p (store.orders.rows w.db)
              (as_stored t (new_order (order_id rand c) (number_of u.id) voucher_id))
              (eqb_ℤ_refl (order_id rand c)) in
          elim (List-cases (select (sells voucher_id) (store.vouchers.rows between.db))) [
            | inl nothing ↦ absurd (some_left nothing)
            | inr (v, vs, left) ↦
                clash_loses redis store rand answers stored c voucher_id u' between free first v vs
                  left o os (ap (select p) grown ∙ clash)
          ]
