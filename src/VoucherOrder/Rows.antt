-- ===== src/VoucherOrder/Rows.antt =====
-- The rows of the two tables under a sale.
use project_collection.Base.{
  ◌+◌, ◌≤◌, ◌≡◌, refl, Bool, true, false, List, [], ◌∷◌, ◌++◌, map, arith, length, All, ap, ◌&&◌,
  Bool-cases, inl, inr, if◌then◌else◌,
}
use project_collection.Base.Int.{ℤ, pos, ◌-ℤ◌, ◌≤ℤ◌, ltb_ℤ, -ℤ_parts}
use mathlib.Core.Bool.{and-eq-true_iff}
use project_collection.Models.{TbSeckillVoucher, TbVoucherOrder, number_of, eqb_ℤ, eqb_ℤ_sound}
use project_collection.Database.{select}
use project_collection.VoucherOrder.{is_order_of, new_order}
use project_collection.VoucherOrder.Contract.{sells, take_one, as_stored}

-- No user has two orders of one voucher.
abbrev pub OnePerUser : List TbVoucherOrder → Type 0
OnePerUser os = (user_id voucher_id : ℤ) → length (select (is_order_of user_id voucher_id) os) ≤ 1

length-select-concat :
    {A : Type 0} (p : A → Bool) (xs : List A) (x : A)
    → length (select p (xs ++ x ∷ []))
      ≡ (if p x then length (select p xs) + 1 else length (select p xs))
length-select-concat p [] x = ground arith
length-select-concat p (y ∷ xs) x = ground (arith, length-select-concat p xs x)

pub both_equal : (a b c d : ℤ) → (eqb_ℤ a b && eqb_ℤ c d) ≡ true → (a ≡ b) × (c ≡ d)
both_equal a b c d h =
    let (p, q) = (and-eq-true_iff _ _).0 h in (eqb_ℤ_sound a b p, eqb_ℤ_sound c d q)

pub OnePerUser-concat :
    (t id user_id voucher_id : ℤ) (os : List TbVoucherOrder)
    → select (is_order_of user_id voucher_id) os ≡ []
    → OnePerUser os
    → OnePerUser (os ++ as_stored t (new_order id user_id voucher_id) ∷ [])
OnePerUser-concat t id user_id voucher_id os none_yet once u v =
    let p = is_order_of u v in
    let count = length-select-concat p os (as_stored t (new_order id user_id voucher_id)) in
    elim (Bool-cases (eqb_ℤ user_id u && eqb_ℤ voucher_id v)) [
      | inl same ↦
          let (eu, ev) = both_equal user_id u voucher_id v same in
          let empty : select (is_order_of u v) os ≡ [] = rw (← eu, ← ev) none_yet in
          rw (count, same, empty) (omega arith)
      | inr other ↦ rw (count, other) (once u v)
    ]

-- No stock is below zero.
abbrev pub NoDebt : List TbSeckillVoucher → Type 0
NoDebt = All λ v. pos 0 ≤ℤ number_of v.stock

pred_nonneg : (s : ℤ) → ltb_ℤ (pos 0) s ≡ true → pos 0 ≤ℤ s -ℤ pos 1
pred_nonneg s h = ground (arith, -ℤ_parts s (pos 1))

take_one_nonneg :
    (t voucher_id : ℤ) (v : TbSeckillVoucher)
    → pos 0 ≤ℤ number_of v.stock
    → pos 0 ≤ℤ number_of (take_one t voucher_id v).stock
take_one_nonneg t voucher_id v h = elim (Bool-cases (sells voucher_id v)) [
  | inl hit ↦ rw hit (pred_nonneg (number_of v.stock) ((and-eq-true_iff _ _).0 hit).1)
  | inr miss ↦ rw miss h
]

pub take_one-NoDebt :
    (t voucher_id : ℤ) (vs : List TbSeckillVoucher)
    → NoDebt vs
    → NoDebt (map (take_one t voucher_id) vs)
take_one-NoDebt t voucher_id [] h = tt
take_one-NoDebt t voucher_id (v ∷ vs) h =
    (take_one_nonneg t voucher_id v h.0, take_one-NoDebt t voucher_id vs h.1)

-- Where no row fits, the statement changes nothing.
pub map-take_one_none :
    (t voucher_id : ℤ) (vs : List TbSeckillVoucher)
    → select (sells voucher_id) vs ≡ []
    → map (take_one t voucher_id) vs ≡ vs
map-take_one_none t voucher_id [] h = refl
map-take_one_none t voucher_id (v ∷ vs) h = elim (Bool-cases (sells voucher_id v)) [
  | inl hit ↦ let full : v ∷ select (sells voucher_id) vs ≡ [] = rw hit at h in cc
  | inr miss ↦ rw miss (ap (λ us. v ∷ us) (map-take_one_none t voucher_id vs (rw miss at h)))
]

pub select-concat_some :
    {A : Type 0} (p : A → Bool) (xs : List A) (x : A)
    → p x ≡ true
    → (y : A) × (ys : List A) × (select p (xs ++ x ∷ []) ≡ y ∷ ys)
select-concat_some p [] x h = (x, [], rw h refl)
select-concat_some p (z ∷ xs) x h =
    let (y, ys, e) = select-concat_some p xs x h in
    elim (Bool-cases (p z)) [
      | inl hit ↦ (z, y ∷ ys, rw (hit, e) refl)
      | inr miss ↦ (y, ys, rw miss e)
    ]

pub select-concat_none :
    {A : Type 0} (p : A → Bool) (xs : List A) (x : A)
    → select p xs ≡ []
    → p x ≡ false
    → select p (xs ++ x ∷ []) ≡ []
select-concat_none p [] x h miss = rw miss refl
select-concat_none p (y ∷ xs) x h miss = elim (Bool-cases (p y)) [
  | inl hit ↦ let full : y ∷ select p xs ≡ [] = rw hit at h in cc
  | inr skip ↦ rw skip (select-concat_none p xs x (rw skip at h) miss)
]
