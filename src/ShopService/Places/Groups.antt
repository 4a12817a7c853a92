-- ===== src/ShopService/Places/Groups.antt =====
-- The map of the shops by type has each shop under its type, in the order of the table.
use project_collection.Base.{
  ◌≡◌, refl, ◌∙◌, sym, subst, true, false, List, [], ◌∷◌, ◌++◌, arith, if◌then◌else◌, Bool-cases,
  inl, inr, append_assoc, append-nil,
}
use project_collection.Base.Int.{ℤ, pos, negsuc, ltb_ℤ}
use project_collection.Models.{eqb_ℤ, eqb_ℤ_refl, eqb_ℤ_sound}
use project_collection.Database.{select}
use project_collection.Orm.{Row}
use project_collection.ShopService.Places.{Shelves, type_of, insert_shop, group_shops}

abbrev pub rows_of : ℤ → Shelves → List Row
rows_of j [] = []
rows_of j ((u, rows) ∷ groups) = if eqb_ℤ u j then rows else rows_of j groups

-- All types lie above this one.
abbrev pub Above : ℤ → Shelves → Type 0
Above t [] = Unit
Above t ((u, rows) ∷ groups) = (ltb_ℤ t u ≡ true) × Above t groups

abbrev pub IsAscending : Shelves → Type 0
IsAscending [] = Unit
IsAscending ((u, rows) ∷ groups) = Above u groups × IsAscending groups

ltb_trans : (a b c : ℤ) → ltb_ℤ a b ≡ true → ltb_ℤ b c ≡ true → ltb_ℤ a c ≡ true
ltb_trans a b c h k = ground arith

pub ltb-eqb : (a b : ℤ) → ltb_ℤ a b ≡ true → eqb_ℤ b a ≡ false
ltb-eqb a b h = ground arith

-- Neither equal nor below is above.
eqb_above : (u t : ℤ) → eqb_ℤ u t ≡ false → ltb_ℤ t u ≡ false → ltb_ℤ u t ≡ true
eqb_above (pos a) (pos b) h k = ground arith
eqb_above (pos a) (negsuc b) h k = ground arith
eqb_above (negsuc a) (pos b) h k = ground arith
eqb_above (negsuc a) (negsuc b) h k = ground arith

-- What is equal to one of two different types is not equal to the other.
eqb_other : (u t j : ℤ) → eqb_ℤ u j ≡ true → eqb_ℤ u t ≡ false → eqb_ℤ t j ≡ false
eqb_other u t j h k = elim (Bool-cases (eqb_ℤ t j)) [
  | inl same ↦
      let e : u ≡ t = eqb_ℤ_sound u j h ∙ sym (eqb_ℤ_sound t j same) in
      let clash : eqb_ℤ u t ≡ true = subst (λ v. eqb_ℤ u v ≡ true) e (eqb_ℤ_refl u) in
      absurd (let both = sym k ∙ clash in cc)
  | inr other ↦ other
]

Above-weaker : (a b : ℤ) (groups : Shelves) → ltb_ℤ a b ≡ true → Above b groups → Above a groups
Above-weaker a b [] h k = tt
Above-weaker a b ((u, rows) ∷ groups) h k = (ltb_trans a b u h k.0, Above-weaker a b groups h k.1)

insert_shop-Above :
    (a t : ℤ) (s : Row) (groups : Shelves)
    → ltb_ℤ a t ≡ true
    → Above a groups
    → Above a (insert_shop t s groups)
unfolding insert_shop
insert_shop-Above a t s [] h k = (h, tt)
insert_shop-Above a t s ((u, rows) ∷ groups) h k = elim (Bool-cases (eqb_ℤ u t)) [
  | inl same ↦ rw same k
  | inr other ↦ elim (Bool-cases (ltb_ℤ t u)) [
    | inl less ↦ rw (other, less) (h, k)
    | inr more ↦ rw (other, more) (k.0, insert_shop-Above a t s groups h k.1)
  ]
]

insert_shop-IsAscending :
    (t : ℤ) (s : Row) (groups : Shelves) → IsAscending groups → IsAscending (insert_shop t s groups)
unfolding insert_shop
insert_shop-IsAscending t s [] k = (tt, tt)
insert_shop-IsAscending t s ((u, rows) ∷ groups) k = elim (Bool-cases (eqb_ℤ u t)) [
  | inl same ↦ rw same k
  | inr other ↦ elim (Bool-cases (ltb_ℤ t u)) [
    | inl less ↦ rw (other, less) ((less, Above-weaker t u groups less k.0), k)
    | inr more ↦
        rw (other, more)
          (
            insert_shop-Above u t s groups (eqb_above u t other more) k.0,
            insert_shop-IsAscending t s groups k.1,
          )
  ]
]

pub rows_of-Above : (t : ℤ) (groups : Shelves) → Above t groups → rows_of t groups ≡ []
rows_of-Above t [] h = refl
rows_of-Above t ((u, rows) ∷ groups) h = rw (ltb-eqb t u h.0) (rows_of-Above t groups h.1)

-- Insertion puts the shop last under its type.
rows_of-insert_shop :
    (j t : ℤ) (s : Row) (groups : Shelves)
    → IsAscending groups
    → rows_of j (insert_shop t s groups)
      ≡ (if eqb_ℤ t j then rows_of j groups ++ s ∷ [] else rows_of j groups)
unfolding insert_shop
rows_of-insert_shop j t s [] k = refl
rows_of-insert_shop j t s ((u, rows) ∷ groups) k = elim (Bool-cases (eqb_ℤ u t)) [
  | inl same ↦
      let e = eqb_ℤ_sound u t same in
      elim (Bool-cases (eqb_ℤ t j)) [
        | inl here ↦
            let also : eqb_ℤ u j ≡ true = subst (λ v. eqb_ℤ v j ≡ true) (sym e) here in
            rw (same, here, also) refl
        | inr elsewhere ↦
            let also : eqb_ℤ u j ≡ false = subst (λ v. eqb_ℤ v j ≡ false) (sym e) elsewhere in
            rw (same, elsewhere, also) refl
      ]
  | inr other ↦ elim (Bool-cases (ltb_ℤ t u)) [
    | inl less ↦ elim (Bool-cases (eqb_ℤ t j)) [
      | inl here ↦
          let e = eqb_ℤ_sound t j here in
          let nothing : rows_of j ((u, rows) ∷ groups) ≡ [] =
            subst (λ v. rows_of v ((u, rows) ∷ groups) ≡ []) e
              (rows_of-Above t ((u, rows) ∷ groups) (less, Above-weaker t u groups less k.0)) in
          rw (other, less, here, nothing) refl
      | inr elsewhere ↦ rw (other, less, elsewhere) refl
    ]
    | inr more ↦ elim (Bool-cases (eqb_ℤ u j)) [
      | inl there ↦ rw (other, more, there, eqb_other u t j there other) refl
      | inr elsewhere ↦ rw (other, more, elsewhere) (rows_of-insert_shop j t s groups k.1)
    ]
  ]
]

group_shops-IsAscending :
    (shops : List Row) (groups : Shelves)
    → IsAscending groups
    → IsAscending (group_shops shops groups)
unfolding group_shops
group_shops-IsAscending [] groups k = k
group_shops-IsAscending (s ∷ shops) groups k =
    group_shops-IsAscending shops (insert_shop (type_of s) s groups)
      (insert_shop-IsAscending (type_of s) s groups k)

rows_of-group_shops :
    (j : ℤ) (shops : List Row) (groups : Shelves)
    → IsAscending groups
    → rows_of j (group_shops shops groups)
      ≡ rows_of j groups ++ select (λ s. eqb_ℤ (type_of s) j) shops
unfolding group_shops
rows_of-group_shops j [] groups k = sym (append-nil (rows_of j groups))
rows_of-group_shops j (s ∷ shops) groups k =
    let rest =
      rows_of-group_shops j shops (insert_shop (type_of s) s groups)
        (insert_shop-IsAscending (type_of s) s groups k) in
    elim (Bool-cases (eqb_ℤ (type_of s) j)) [
      | inl here ↦ rw here (
          rest
          ∙ rw (rows_of-insert_shop j (type_of s) s groups k, here)
              (append_assoc (rows_of j groups) (s ∷ []) (select (λ t. eqb_ℤ (type_of t) j) shops)))
      | inr elsewhere ↦
          rw elsewhere (rest ∙ rw (rows_of-insert_shop j (type_of s) s groups k, elsewhere) refl)
    ]

-- Each type has its shops in the order of the table, and the types ascend.
pub group_shops-select :
    (shops : List Row)
    → IsAscending (group_shops shops [])
      × ((j : ℤ) → rows_of j (group_shops shops []) ≡ select (λ s. eqb_ℤ (type_of s) j) shops)
group_shops-select shops =
    (group_shops-IsAscending shops [] tt, λ j. rows_of-group_shops j shops [] tt)
