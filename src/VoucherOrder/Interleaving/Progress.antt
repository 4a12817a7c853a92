-- ===== src/VoucherOrder/Interleaving/Progress.antt =====
-- No request waits for another: each ends after a few steps of its own, whatever the others do.
use project_collection.Base.{
  ℕ, suc, ◌+◌, ◌≤◌, ◌≡◌, ◌≢◌, refl, sym, ==_iff, Bool, true, false, List, [], ◌∷◌, ◌⊎◌, inl, inr,
  arith, ◌==◌, if◌then◌else◌, Bool-cases, Option-cases, List-cases,
}
use project_collection.Base.Int.{ℤ, pos}
use project_collection.Database.{select}
use project_collection.VoucherOrder.Contract.{sells, same_id}
use project_collection.VoucherOrder.Interleaving.{
  Phase, begins, locked, checked, taken, inserted, returned, failed, State, moved, key_of,
  orders_of, order_of, Step, lock, refuse, find_none, find_order, take, sold_out, insert, clash,
  unlock, Reach, here, next,
}

-- The steps that a request has left at most.
abbrev pub rank : Phase → ℕ
rank begins = 5
rank locked = 4
rank checked = 3
rank taken = 2
rank inserted = 1
rank returned = 0
rank failed = 0

abbrev pub has_ended : Phase → Bool
has_ended returned = true
has_ended failed = true
has_ended _ = false

module _ (voucher_id : ℤ) where
  -- The request that takes a step.
  abbrev pub actor : {s t : State} → Step voucher_id s t → ℕ
  actor (lock i _ _) = i
  actor (refuse i _ _) = i
  actor (find_none i _ _) = i
  actor (find_order i _ _) = i
  actor (take i _ _ _) = i
  actor (sold_out i _ _) = i
  actor (insert i _ _ _) = i
  actor (clash i _ _) = i
  actor (unlock i _) = i

  -- How many steps of an execution are taken by request i.
  abbrev pub turns : {s t : State} → ℕ → Reach voucher_id s t → ℕ
  turns i here = 0
  turns i (next r step) = let before = turns i r in if actor step == i then suc before else before

  abbrev rank_of : State → ℕ → ℕ
  rank_of s i = rank (s.requests i).phase

  -- Moving request j to a phase of a lower rank uses up one of its steps, and none of another's.
  moved-rank :
      (s : State) (i j : ℕ) (p q : Phase)
      → (s.requests j).phase ≡ q
      → suc (rank p) ≤ rank q
      → (if j == i then suc (rank (moved s j p i).phase) else rank (moved s j p i).phase)
        ≤ rank_of s i
  moved-rank s i j p q h lower = elim (Bool-cases (j == i)) [
    | inl same ↦ rw (same, sym ((==_iff j i).0 same), h) lower
    | inr other ↦ rw other (omega arith)
  ]

  step_ranks :
      {s t : State} (i : ℕ) (step : Step voucher_id s t)
      → (if actor step == i then suc (rank_of t i) else rank_of t i) ≤ rank_of s i
  step_ranks {s} i (lock j h k) = moved-rank s i j locked begins h (omega arith)
  step_ranks {s} i (refuse j h k) = moved-rank s i j failed begins h (omega arith)
  step_ranks {s} i (find_none j h k) = moved-rank s i j checked locked h (omega arith)
  step_ranks {s} i (find_order j h k) = moved-rank s i j failed locked h (omega arith)
  step_ranks {s} i (take j t h k) = moved-rank s i j taken checked h (omega arith)
  step_ranks {s} i (sold_out j h k) = moved-rank s i j failed checked h (omega arith)
  step_ranks {s} i (insert j t h k) = moved-rank s i j inserted taken h (omega arith)
  step_ranks {s} i (clash j h k) = moved-rank s i j failed taken h (omega arith)
  step_ranks {s} i (unlock j h) = moved-rank s i j returned inserted h (omega arith)

  turns_ranks :
      {s t : State} (i : ℕ) (r : Reach voucher_id s t) → turns i r + rank_of t i ≤ rank_of s i
  turns_ranks i here = omega arith
  turns_ranks i (next r step) =
      let before = turns_ranks i r in
      let last = step_ranks i step in
      elim (Bool-cases (actor step == i)) [
        | inl mine ↦ (let less = rw mine at last in rw mine (omega (arith, before, less)))
        | inr other ↦ (let less = rw other at last in rw other (omega (arith, before, less)))
      ]

  rank_bounded : (p : Phase) → rank p ≤ 5
  rank_bounded begins = omega arith
  rank_bounded locked = omega arith
  rank_bounded checked = omega arith
  rank_bounded taken = omega arith
  rank_bounded inserted = omega arith
  rank_bounded returned = omega arith
  rank_bounded failed = omega arith

  not_cons : {A : Type 0} (l : List A) (x : A) (xs : List A) → l ≡ x ∷ xs → l ≢ []
  not_cons l x xs e n = cc

  -- A request that has not ended can take a step, from any state.
  can_step :
      (t : State) (i : ℕ) (p : Phase)
      → (t.requests i).phase ≡ p
      → has_ended p ≡ false
      → (u : State) × (step : Step voucher_id t u) × (actor step ≡ i)
  can_step t i begins h e = elim (Option-cases (t.keys (key_of t i))) [
    | inl free ↦ (_, lock i h free, refl)
    | inr (entry, held) ↦ (_, refuse i h (λ n. cc), refl)
  ]
  can_step t i locked h e = elim (List-cases (orders_of voucher_id t i)) [
    | inl none_yet ↦ (_, find_none i h none_yet, refl)
    | inr (x, xs, found) ↦ (_, find_order i h (not_cons _ x xs found), refl)
  ]
  can_step t i checked h e = elim (List-cases (select (sells voucher_id) t.sale_rows)) [
    | inl gone ↦ (_, sold_out i h gone, refl)
    | inr (x, xs, left) ↦ (_, take i (pos 0) h (not_cons _ x xs left), refl)
  ]
  can_step t i taken h e =
      elim (List-cases (select (same_id (order_of voucher_id t i)) t.order_rows)) [
        | inl fresh ↦ (_, insert i (pos 0) h fresh, refl)
        | inr (x, xs, used) ↦ (_, clash i h (not_cons _ x xs used), refl)
      ]
  can_step t i inserted h e = (_, unlock i h, refl)
  can_step t i returned h e = absurd (cc)
  can_step t i failed h e = absurd (cc)

  -- However requests interleave, each takes at most five steps; and in any state that they reach, one
  -- that has neither returned nor failed can take its next step: none waits for another.
  pub Reach_progress :
      (s t : State) (i : ℕ) (r : Reach voucher_id s t)
      → (turns i r ≤ 5)
        × ((has_ended (t.requests i).phase ≡ true)
            ⊎ ((u : State) × (step : Step voucher_id t u) × (actor step ≡ i)))
  Reach_progress s t i r = (
    omega (arith, turns_ranks i r, rank_bounded (s.requests i).phase),
    elim (Bool-cases (has_ended (t.requests i).phase)) [
      | inl over ↦ inl over
      | inr running ↦ inr (can_step t i (t.requests i).phase refl running)
    ],
  )
