-- ===== src/VoucherOrder/Interleaving/Tests.antt =====
-- The guarantees of concurrent requests at concrete starts.
use project_collection.Base.{true, ◌≤◌, ◌⊎◌, ◌≡◌, refl, ap, [], ◌∷◌, some, arith}
use project_collection.Base.Int.{pos, pos_part}
use project_collection.Redis.{put}
use project_collection.VoucherOrder.{new_order, lock_key}
use project_collection.VoucherOrder.Contract.{as_stored}
use project_collection.VoucherOrder.Guarantees.{held_lock}
use project_collection.VoucherOrder.Rows.{OnePerUser}
use project_collection.VoucherOrder.Interleaving.{
  State, locked, checked, moved, Step, Reach, here, next, lock, find_none,
}
use project_collection.VoucherOrder.Interleaving.Exclusion.{Reach-OnePerUser}
use project_collection.VoucherOrder.Interleaving.Progress.{turns, has_ended, actor, Reach_progress}
use project_collection.VoucherOrder.Interleaving.Expiry.{
  TimedReach, two_requests, expiry_breaks_OnePerUser,
}

-- Two requests of user 1 for voucher 2.
abbrev start : State
start = two_requests (pos 2) (pos 1) (pos 100) (pos 101)

-- The first of them is behind its lock and has found no order.
abbrev one_checked : State
one_checked = record start {
  requests = moved (record start { requests = moved start 0 locked }) 0 checked;
  keys = put (lock_key (pos 1)) (some held_lock) start.keys;
}

to_checked : Reach (pos 2) start one_checked
to_checked = next (next here (lock 0 refl refl)) (find_none 0 refl refl)

Reach-OnePerUser_example : OnePerUser one_checked.order_rows
Reach-OnePerUser_example =
    Reach-OnePerUser (pos 2) start one_checked (λ i. refl) (λ u v. omega arith) to_checked

expiry_breaks_OnePerUser_example :
    (t : State) × TimedReach (pos 2) start t
    × (t.order_rows
        ≡ as_stored (pos 0) (new_order (pos 100) (pos 1) (pos 2))
          ∷ as_stored (pos 0) (new_order (pos 101) (pos 1) (pos 2))
          ∷ [])
    × (¬ OnePerUser t.order_rows)
expiry_breaks_OnePerUser_example =
    expiry_breaks_OnePerUser (pos 2) (pos 1) (pos 100) (pos 101)
      (λ e. absurd (omega (arith, ap pos_part e)))

Reach_progress_example :
    (turns (pos 2) 1 to_checked ≤ 5)
    × ((has_ended (one_checked.requests 1).phase ≡ true)
        ⊎ ((u : State) × (step : Step (pos 2) one_checked u) × (actor (pos 2) step ≡ 1)))
Reach_progress_example = Reach_progress (pos 2) start one_checked 1 to_checked
