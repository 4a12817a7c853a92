-- ===== src/VoucherOrder/Window.antt =====
-- `seckillVoucher`: the sale takes place in the voucher's time window, and not without stock.
use project_collection.Base.{
  ℕ, ◌≡◌, ◌≢◌, refl, ap, Bool, [], ◌∷◌, arith, length, List-cases, Bool-cases, ◌⊎◌, inl, inr,
}
use project_collection.Base.Int.{ℤ, pos, ◌≤ℤ◌, ltb_ℤ}
use project_collection.Base.Text.{Text, codes}
use project_collection.Common.{
  ok, raised, business, business_with, params_error, drogon_db_exception,
}
use project_collection.Redis.{Redis}
use project_collection.Models.{TbUser, TbSeckillVoucher, number_of, is_number}
use project_collection.Database.{select, IsReader}
use project_collection.VoucherOrder.{Clock, create_voucher_order, seckill_voucher}
use project_collection.VoucherOrder.Backing.{Store, World}

-- The voucher is on sale at the time of the call.
abbrev pub IsOpen : Clock → TbSeckillVoucher → Type 0
IsOpen c v =
    (number_of v.begin_time ≤ℤ c.now)
    × (c.now ≤ℤ number_of v.end_time)
    × (pos 1 ≤ℤ number_of v.stock)

module _ {Server Db : Type 0} (redis : Redis Server) (store : Store Db) (rand : ℕ → ℕ → ℕ)
    (reads : IsReader store.vouchers) (c : Clock) (voucher_id : ℤ) (u : TbUser)
    (w : World Server Db) where
  abbrev of_voucher : TbSeckillVoucher → Bool
  of_voucher v = is_number v.voucher_id voucher_id

  no_voucher :
      length (select of_voucher (store.vouchers.rows w.db)) ≢ 1
      → (e : Text) × (seckill_voucher redis store rand c voucher_id u w
          ≡ (raised (drogon_db_exception e), w))
  unfolding seckill_voucher
  no_voucher several = let (e, threw) = reads.not_one of_voucher w.db several in (e, rw threw refl)

  -- The order of the call is refused with a message, and nothing has changed.
  abbrev pub RefusedWith : Text → Type 0
  RefusedWith d =
      seckill_voucher redis store rand c voucher_id u w
      ≡ (raised (business (business_with params_error d)), w)

  -- With one row of the voucher: it is on sale and createVoucherOrder is called, or the call is refused
  -- and nothing has changed. The message is that of the first condition that fails: the sale has not
  -- begun, the sale is over, nothing is left.
  pub seckill_voucher_window :
      (v : TbSeckillVoucher)
      → select of_voucher (store.vouchers.rows w.db) ≡ v ∷ []
      → (IsOpen c v
          × (seckill_voucher redis store rand c voucher_id u w
              ≡ create_voucher_order redis store rand c voucher_id u w))
        ⊎ ((¬ (number_of v.begin_time ≤ℤ c.now)) × RefusedWith (codes "秒杀尚未开始"))
        ⊎ ((number_of v.begin_time ≤ℤ c.now)
            × (¬ (c.now ≤ℤ number_of v.end_time))
            × RefusedWith (codes "秒杀已经结束"))
        ⊎ ((number_of v.begin_time ≤ℤ c.now)
            × (c.now ≤ℤ number_of v.end_time)
            × (¬ (pos 1 ≤ℤ number_of v.stock))
            × RefusedWith (codes "库存不足"))
  unfolding seckill_voucher create_voucher_order
  seckill_voucher_window v found = elim (Bool-cases (ltb_ℤ c.now (number_of v.begin_time))) [
    | inl early ↦ inr (inl ((λ begun. ground arith), rw (row, early) refl))
    | inr begun ↦ elim (Bool-cases (ltb_ℤ (number_of v.end_time) c.now)) [
      | inl late ↦
          inr (inr (inl (ground arith, (λ running. ground arith), rw (row, begun, late) refl)))
      | inr running ↦ elim (Bool-cases (ltb_ℤ (number_of v.stock) (pos 1))) [
        | inl empty ↦ inr (
            inr (
              inr (
                ground arith,
                ground arith,
                (λ left. ground arith),
                rw (row, begun, running, empty) refl,
              )))
        | inr left ↦ inl (ground arith, rw (row, begun, running, left) refl)
      ]
    ]
  ]
    where
      row : store.vouchers.find_one of_voucher w.db ≡ (ok v, w.db)
      row = reads.one of_voucher w.db v found

  -- A call that returns an order id found exactly one voucher of that number, on sale at the time of
  -- the call, and its order was placed by `createVoucherOrder` from the same state.
  pub seckill_voucher_sells_in_window :
      (id : ℤ)
      → (seckill_voucher redis store rand c voucher_id u w).0 ≡ ok id
      → (v : TbSeckillVoucher) × (select of_voucher (store.vouchers.rows w.db) ≡ v ∷ [])
        × IsOpen c v
        × (seckill_voucher redis store rand c voucher_id u w
            ≡ create_voucher_order redis store rand c voucher_id u w)
  seckill_voucher_sells_in_window id returned =
      elim (List-cases (select of_voucher (store.vouchers.rows w.db))) [
        | inl none_found ↦ no_sale (no_voucher (rw none_found (omega arith)))
        | inr (v, [], found) ↦ elim (seckill_voucher_window v found) [
          | inl (on_sale, same) ↦ (v, found, on_sale, same)
          | inr (inl (shut, threw)) ↦ refused _ threw
          | inr (inr (inl (begun, shut, threw))) ↦ refused _ threw
          | inr (inr (inr (begun, running, empty, threw))) ↦ refused _ threw
        ]
        | inr (v, v' ∷ vs, found) ↦ no_sale (no_voucher (rw found (omega arith)))
      ]
    where
      Result : Type 0
      Result =
          (v : TbSeckillVoucher) × (select of_voucher (store.vouchers.rows w.db) ≡ v ∷ [])
          × IsOpen c v
          × (seckill_voucher redis store rand c voucher_id u w
              ≡ create_voucher_order redis store rand c voucher_id u w)

      no_sale :
          (e : Text) × (seckill_voucher redis store rand c voucher_id u w
              ≡ (raised (drogon_db_exception e), w))
          → Result
      no_sale (e, threw) = let refused = ap (λ p. p.0) threw in cc

      refused : (d : Text) → RefusedWith d → Result
      refused d threw = let failed = ap (λ p. p.0) threw in cc
