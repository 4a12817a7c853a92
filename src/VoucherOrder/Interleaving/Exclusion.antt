-- ===== src/VoucherOrder/Interleaving/Exclusion.antt =====
-- As long as no lock expires, one order for each user holds under every interleaving.
use project_collection.Base.{
  ℕ, ◌≡◌, ◌≢◌, refl, true, [], ◌∷◌, ◌++◌, none, Bool-cases, inl, inr, ◌==◌, if◌then◌else◌,
}
use project_collection.Base.Int.{ℤ}
use project_collection.Base.Text.{text_eq_ne}
use project_collection.Database.{select}
use project_collection.Redis.{put}
use project_collection.VoucherOrder.{is_order_of}
use project_collection.VoucherOrder.Contract.{as_stored}
use project_collection.VoucherOrder.Rows.{
  OnePerUser, OnePerUser-concat, both_equal, select-concat_none,
}
use project_collection.VoucherOrder.Interleaving.{
  Phase, begins, checked, taken, inserted, returned, failed, State, moved, key_of, order_of, Step,
  lock, refuse, find_none, find_order, take, sold_out, insert, clash, unlock, Reach, here, next,
}
use project_collection.VoucherOrder.Interleaving.Invariant.{
  inside, has_checked, Inv, phase_cases, same_key, was_inside, was_unordered, moved-Inv, lock-Inv,
}

has_checked-inside : (p : Phase) → has_checked p ≡ true → inside p ≡ true
has_checked-inside checked h = refl
has_checked-inside taken h = refl
has_checked-inside _ h = cc

module _ (voucher_id : ℤ) where
  module _ (s : State) (v : Inv voucher_id s) (i : ℕ) where
    insert-Inv :
        (t : ℤ)
        → (s.requests i).phase ≡ taken
        → Inv voucher_id (record s {
          requests = moved s i inserted;
          order_rows = s.order_rows ++ as_stored t (order_of voucher_id s i) ∷ [];
        })
    insert-Inv t p = record {
      guarded = λ j h. v.guarded j (back j h);
      alone = λ a b ha hb. v.alone a b (back a ha) (back b hb);
      unordered = λ j h. elim (phase_cases voucher_id s v i inserted j) [
        | inl (_, same) ↦ let never = rw same at h in cc
        | inr (other, same) ↦ still_none j other (rw same at h)
      ];
      once =
          OnePerUser-concat t (s.requests i).id (s.requests i).user_id voucher_id s.order_rows
            (v.unordered i (rw p refl)) v.once;
    }
      where
        back :
            (j : ℕ)
            → inside (if i == j then inserted else (s.requests j).phase) ≡ true
            → inside (s.requests j).phase ≡ true
        back = was_inside voucher_id s v i inserted (λ _. rw p refl)

        still_none :
            (j : ℕ)
            → i ≢ j
            → has_checked (s.requests j).phase ≡ true
            → select
                (is_order_of (s.requests j).user_id voucher_id)
                (s.order_rows ++ as_stored t (order_of voucher_id s i) ∷ [])
              ≡ []
        still_none j other h =
            select-concat_none (is_order_of (s.requests j).user_id voucher_id) s.order_rows
              (as_stored t (order_of voucher_id s i)) (v.unordered j h)
              (elim (Bool-cases
                (is_order_of (s.requests j).user_id voucher_id (order_of voucher_id s i))) [
                  | inl hit ↦ absurd (
                      other (
                        v.alone i j (rw p refl) (has_checked-inside _ h)
                          (both_equal (s.requests i).user_id (s.requests j).user_id voucher_id
                            voucher_id hit).0))
                  | inr miss ↦ miss
                ])

    unlock-Inv :
        (s.requests i).phase ≡ inserted
        → Inv voucher_id
            (record s { requests = moved s i returned; keys = put (key_of s i) none s.keys })
    unlock-Inv p = record {
      guarded = λ j h. elim (phase_cases voucher_id s v i returned j) [
        | inl (_, same) ↦ let never = rw same at h in cc
        | inr (other, same) ↦ still_locked j other (rw same at h)
      ];
      alone = λ a b ha hb. v.alone a b (back a ha) (back b hb);
      unordered = was_unordered voucher_id s v i returned (λ e. cc) (λ e. cc);
      once = v.once;
    }
      where
        back :
            (j : ℕ)
            → inside (if i == j then returned else (s.requests j).phase) ≡ true
            → inside (s.requests j).phase ≡ true
        back = was_inside voucher_id s v i returned (λ e. cc)

        still_locked :
            (j : ℕ)
            → i ≢ j
            → inside (s.requests j).phase ≡ true
            → put (key_of s i) none s.keys (key_of s j) ≢ none
        still_locked j other h =
            rw
              (text_eq_ne (key_of s i) (key_of s j)
                (λ e. other (same_key voucher_id s v i j (rw p refl) h e)))
              (v.guarded j h)

  Step-Inv : {s t : State} → Step voucher_id s t → Inv voucher_id s → Inv voucher_id t
  Step-Inv {s} (lock i p free) v = lock-Inv voucher_id s v i p free
  Step-Inv {s} (refuse i p e) v = moved-Inv voucher_id s v i failed s.sale_rows (λ e. cc) (λ e. cc)
  Step-Inv {s} (find_none i p e) v =
      moved-Inv voucher_id s v i checked s.sale_rows (λ _. rw p refl) (λ _. e)
  Step-Inv {s} (find_order i p e) v =
      moved-Inv voucher_id s v i failed s.sale_rows (λ e. cc) (λ e. cc)
  Step-Inv {s} (take i t p e) v =
      moved-Inv voucher_id s v i taken _ (λ _. rw p refl) (λ _. v.unordered i (rw p refl))
  Step-Inv {s} (sold_out i p e) v =
      moved-Inv voucher_id s v i failed s.sale_rows (λ e. cc) (λ e. cc)
  Step-Inv {s} (insert i t p e) v = insert-Inv s v i t p
  Step-Inv {s} (clash i p e) v = moved-Inv voucher_id s v i failed s.sale_rows (λ e. cc) (λ e. cc)
  Step-Inv {s} (unlock i p) v = unlock-Inv s v i p

  Reach-Inv : {s t : State} → Inv voucher_id s → Reach voucher_id s t → Inv voucher_id t
  Reach-Inv v here = v
  Reach-Inv v (next r st) = Step-Inv st (Reach-Inv v r)

  -- Where no request has begun and no user has two orders of one voucher, no interleaving of the
  -- steps of any number of requests leads to a second order of a user, as long as no lock expires.
  pub Reach-OnePerUser :
      (s t : State)
      → ((i : ℕ) → (s.requests i).phase ≡ begins)
      → OnePerUser s.order_rows
      → Reach voucher_id s t
      → OnePerUser t.order_rows
  Reach-OnePerUser s t idle once r = (Reach-Inv start r).once
    where
      start : Inv voucher_id s
      start = record {
        guarded = λ i h. let never = rw (idle i) at h in cc;
        alone = λ a b ha hb e. let never = rw (idle a) at ha in cc;
        unordered = λ i h. let never = rw (idle i) at h in cc;
        once = once;
      }
