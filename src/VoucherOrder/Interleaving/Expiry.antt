-- ===== src/VoucherOrder/Interleaving/Expiry.antt =====
-- The lock key expires after ten seconds and is not renewed: what that does to concurrent requests.
use project_collection.Base.{
  ℕ, ◌≡◌, ◌≢◌, refl, [], ◌∷◌, none, some, arith, ◌≤◌, length, ◌==◌, if◌then◌else◌,
}
use project_collection.Base.Int.{ℤ, pos, ◌-ℤ◌}
use project_collection.Base.Text.{text_eq_refl}
use project_collection.Redis.{put}
use project_collection.Models.{eqb_ℤ_refl, eqb_ℤ_ne}
use project_collection.Database.{select}
use project_collection.VoucherOrder.{lock_key, is_order_of, new_order}
use project_collection.VoucherOrder.Contract.{as_stored}
use project_collection.VoucherOrder.Rows.{OnePerUser}
use project_collection.VoucherOrder.Interleaving.{
  begins, State, key_of, Step, lock, find_none, take, insert,
}

module _ (voucher_id : ℤ) where
  -- A step of a request, or the server drops a lock key whose time is over.
  pub data TimedStep (s : State) : State → Type 0 where
    acts : {t : State} → Step voucher_id s t → TimedStep s t
    expires : (i : ℕ) → TimedStep s (record s { keys = put (key_of s i) none s.keys })

  pub data TimedReach (s : State) : State → Type 0 where
    here : TimedReach s s
    next : {t u : State} → TimedReach s t → TimedStep t u → TimedReach s u

  -- Two requests of one user, nothing in Redis, no order, and a stock of two.
  abbrev pub two_requests : ℤ → ℤ → ℤ → State
  two_requests user_id id id' = record {
    requests = λ j. record { user_id = user_id; id = if j == 0 then id else id'; phase = begins };
    keys = λ k. none;
    sale_rows =
        record {
          voucher_id = some voucher_id;
          stock = some (pos 2);
          create_time = none;
          begin_time = none;
          end_time = none;
          update_time = none;
        }
        ∷ [];
    order_rows = [];
  }

  -- From a start with no order, two requests of one user that draw different ids reach a state in
  -- which the user has two orders of the voucher, if a lock key may expire in between.
  pub expiry_breaks_OnePerUser :
      (user_id id id' : ℤ)
      → id ≢ id'
      → (t : State) × TimedReach (two_requests user_id id id') t
        × (t.order_rows
            ≡ as_stored (pos 0) (new_order id user_id voucher_id)
              ∷ as_stored (pos 0) (new_order id' user_id voucher_id)
              ∷ [])
        × (¬ OnePerUser t.order_rows)
  unfolding ◌-ℤ◌
  expiry_breaks_OnePerUser user_id id id' ne = (
    _,
    next
        (next
          (next
            (next
              (next
                (next
                  (next (next (next here (acts (lock 0 refl refl))) (acts (find_none 0 refl refl)))
                    (expires 0))
                  (acts (lock 1 refl (rw (text_eq_refl (lock_key user_id)) refl))))
                (acts (find_none 1 refl refl)))
              (acts (take 0 (pos 0) refl (rw (eqb_ℤ_refl voucher_id) (λ e. cc)))))
            (acts (insert 0 (pos 0) refl refl)))
          (acts
            (take 1 (pos 0) refl (rw (eqb_ℤ_refl voucher_id, eqb_ℤ_refl voucher_id) (λ e. cc)))))
        (acts (insert 1 (pos 0) refl (rw (eqb_ℤ_ne id id' ne) refl))),
    refl,
    λ once. absurd (too_many (once user_id voucher_id)),
  )
    where
      too_many :
          length (
              select (is_order_of user_id voucher_id) (
                as_stored (pos 0) (new_order id user_id voucher_id)
                ∷ as_stored (pos 0) (new_order id' user_id voucher_id)
                ∷ []))
            ≤ 1
          → ⊥
      too_many few =
          let two : 2 ≤ 1 = rw (eqb_ℤ_refl user_id, eqb_ℤ_refl voucher_id) at few in omega arith
