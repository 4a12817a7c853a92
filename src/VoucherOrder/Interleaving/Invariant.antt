-- ===== src/VoucherOrder/Interleaving/Invariant.antt =====
-- What holds of concurrent requests between two steps, and the steps that move one request on.
use project_collection.Base.{
  ℕ, ◌≡◌, ◌≢◌, refl, ◌∙◌, sym, subst, ◌⊎◌, if◌then◌else◌, Bool, true, false, List, [], none, some,
  arith, ◌==◌, Bool-cases, inl, inr, ==_iff,
}
use project_collection.Base.Int.{ℤ}
use project_collection.Base.Text.{text_eq, text_eq_refl, to_string-injective, append_cancel}
use project_collection.Models.{TbSeckillVoucher}
use project_collection.Redis.{put}
use project_collection.VoucherOrder.Guarantees.{held_lock}
use project_collection.VoucherOrder.{lock_order_key}
use project_collection.VoucherOrder.Rows.{OnePerUser}
use project_collection.VoucherOrder.Interleaving.{
  Phase, begins, locked, checked, taken, inserted, State, moved, key_of, orders_of,
}

-- A request that took its lock and has not ended.
abbrev pub inside : Phase → Bool
inside locked = true
inside checked = true
inside taken = true
inside inserted = true
inside _ = false

-- A request that has seen no order of its user and has not inserted one.
abbrev pub has_checked : Phase → Bool
has_checked checked = true
has_checked taken = true
has_checked _ = false

module _ (voucher_id : ℤ) where
  pub record Inv (s : State) : Type 0 where
    pub guarded : (i : ℕ) → inside (s.requests i).phase ≡ true → s.keys (key_of s i) ≢ none
    pub alone :
        (i j : ℕ)
        → inside (s.requests i).phase ≡ true
        → inside (s.requests j).phase ≡ true
        → (s.requests i).user_id ≡ (s.requests j).user_id
        → i ≡ j
    pub unordered :
        (i : ℕ) → has_checked (s.requests i).phase ≡ true → orders_of voucher_id s i ≡ []
    pub once : OnePerUser s.order_rows

  module _ (s : State) (v : Inv s) (i : ℕ) where
    abbrev pub new_phase : Phase → ℕ → Phase
    new_phase p j = if i == j then p else (s.requests j).phase

    -- A step of request i, seen from request j: it is the mover, or its phase is as before.
    pub phase_cases :
        (p : Phase) (j : ℕ)
        → ((i ≡ j) × (new_phase p j ≡ p)) ⊎ ((i ≢ j) × (new_phase p j ≡ (s.requests j).phase))
    phase_cases p j = elim (Bool-cases (i == j)) [
      | inl same ↦ inl ((==_iff i j).0 same, rw same refl)
      | inr other ↦ inr ((λ e. ground arith), rw other refl)
    ]

    -- A request whose phase stays outside the lock, or that was inside already.
    module _ (p : Phase) (stays : inside p ≡ true → inside (s.requests i).phase ≡ true) where
      pub was_inside : (j : ℕ) → inside (new_phase p j) ≡ true → inside (s.requests j).phase ≡ true
      was_inside j h = elim (phase_cases p j) [
        | inl (e, same) ↦ subst (λ k. inside (s.requests k).phase ≡ true) e (stays (rw same at h))
        | inr (_, same) ↦ rw same at h
      ]

      pub was_unordered :
          (has_checked p ≡ true → orders_of voucher_id s i ≡ [])
          → (j : ℕ) → has_checked (new_phase p j) ≡ true
          → orders_of voucher_id s j ≡ []
      was_unordered seen j h = elim (phase_cases p j) [
        | inl (e, same) ↦ subst (λ k. orders_of voucher_id s k ≡ []) e (seen (rw same at h))
        | inr (_, same) ↦ v.unordered j (rw same at h)
      ]

    -- Two requests inside with the same lock key are one request.
    pub same_key :
        (j : ℕ)
        → inside (s.requests i).phase ≡ true
        → inside (s.requests j).phase ≡ true
        → key_of s i ≡ key_of s j
        → i ≡ j
    same_key j hi hj e =
        v.alone i j hi hj (to_string-injective _ _ (append_cancel lock_order_key _ _ e))

    pub moved-Inv :
        (p : Phase) (rows : List TbSeckillVoucher)
        → (inside p ≡ true → inside (s.requests i).phase ≡ true)
        → (has_checked p ≡ true → orders_of voucher_id s i ≡ [])
        → Inv (record s { requests = moved s i p; sale_rows = rows })
    moved-Inv p rows stays seen = record {
      guarded = λ j h. v.guarded j (was_inside p stays j h);
      alone = λ a b ha hb. v.alone a b (was_inside p stays a ha) (was_inside p stays b hb);
      unordered = was_unordered p stays seen;
      once = v.once;
    }

    pub lock-Inv :
        (s.requests i).phase ≡ begins
        → s.keys (key_of s i) ≡ none
        → Inv (record s {
          requests = moved s i locked;
          keys = put (key_of s i) (some held_lock) s.keys;
        })
    lock-Inv p free = record {
      guarded = λ j h. guarded_after j (phase_cases locked j) h;
      alone = λ a b ha hb e. alone_after a b (phase_cases locked a) (phase_cases locked b) ha hb e;
      unordered = λ j h. elim (phase_cases locked j) [
        | inl (_, same) ↦ let never = rw same at h in cc
        | inr (_, same) ↦ v.unordered j (rw same at h)
      ];
      once = v.once;
    }
      where
        guarded_after :
            (j : ℕ)
            → ((i ≡ j) × (new_phase locked j ≡ locked))
              ⊎ ((i ≢ j) × (new_phase locked j ≡ (s.requests j).phase))
            → inside (new_phase locked j) ≡ true
            → put (key_of s i) (some held_lock) s.keys (key_of s j) ≢ none
        guarded_after j (inl (e, _)) h = rw (← e, text_eq_refl (key_of s i)) (λ empty. cc)
        guarded_after j (inr (_, same)) h = elim (Bool-cases (text_eq (key_of s i) (key_of s j))) [
          | inl hit ↦ rw hit (λ empty. cc)
          | inr miss ↦ rw miss (v.guarded j (rw same at h))
        ]

        -- Nobody is inside with the key that was free.
        nobody :
            (j : ℕ)
            → inside (s.requests j).phase ≡ true
            → (s.requests i).user_id ≡ (s.requests j).user_id
            → ⊥
        nobody j h e = v.guarded j h (rw (← e) free)

        alone_after :
            (a b : ℕ)
            → ((i ≡ a) × (new_phase locked a ≡ locked))
              ⊎ ((i ≢ a) × (new_phase locked a ≡ (s.requests a).phase))
            → ((i ≡ b) × (new_phase locked b ≡ locked))
              ⊎ ((i ≢ b) × (new_phase locked b ≡ (s.requests b).phase))
            → inside (new_phase locked a) ≡ true
            → inside (new_phase locked b) ≡ true
            → (s.requests a).user_id ≡ (s.requests b).user_id
            → a ≡ b
        alone_after a b (inl (ia, _)) (inl (ib, _)) ha hb e = sym ia ∙ ib
        alone_after a b (inl (ia, _)) (inr (_, sb)) ha hb e =
            absurd (nobody b (rw sb at hb) (rw ia e))
        alone_after a b (inr (_, sa)) (inl (ib, _)) ha hb e =
            absurd (nobody a (rw sa at ha) (rw ib (sym e)))
        alone_after a b (inr (_, sa)) (inr (_, sb)) ha hb e =
            v.alone a b (rw sa at ha) (rw sb at hb) e
