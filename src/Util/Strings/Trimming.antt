-- ===== src/Util/Strings/Trimming.antt =====
-- The trimming functions against scans from each end.
use project_collection.Base.{
  ℕ, suc, ◌+◌, ◌-◌, ◌≡◌, refl, ◌∙◌, ap, sym, Bool, true, [], ◌∷◌, none, some, take, drop, arith,
  Bool-cases, Option-cases, inl, inr, ◌⊎◌, if◌then◌else◌,
}
use project_collection.Base.Text.{Text, codes}
use project_collection.Util.Strings.{
  contains, from, through, find_first_not_of, find_last_not_of, trim, trim_left, trim_right,
  clear_head_tail_space,
}

-- The text without its first characters of the set.
abbrev pub strip_left : Text → Text → Text
strip_left [] d = []
strip_left (c ∷ s) d = let rest = strip_left s d in if contains c d then rest else c ∷ s

abbrev keep : ℕ → Text → Bool → Text
keep c [] true = []
keep c r skip = c ∷ r

-- The text without its last characters of the set.
abbrev pub strip_right : Text → Text → Text
strip_right [] d = []
strip_right (c ∷ s) d = keep c (strip_right s d) (contains c d)

abbrev pub drop_last : Text → Text
drop_last [] = []
drop_last (c ∷ []) = []
drop_last (c ∷ e ∷ s) = c ∷ drop_last (e ∷ s)

-- `TrimLeft` takes the characters of the set off the front.
pub trim_left_lem : (s d : Text) → trim_left s d ≡ strip_left s d
unfolding trim_left find_first_not_of
trim_left_lem [] d = refl
trim_left_lem (c ∷ s) d =
    let rest = trim_left_lem s d in
    elim (Bool-cases (contains c d)) [
      | inr stays ↦ rw stays refl
      | inl goes ↦ elim (Option-cases (find_first_not_of d s)) [
        | inl nothing ↦ rw (goes, nothing) (rw nothing at rest)
        | inr (n, found) ↦ rw (goes, found) (rw found at rest)
      ]
    ]

-- Where the last character outside the set stands.
last_lem :
    (s d : Text)
    → ((find_last_not_of d s ≡ none) × (strip_right s d ≡ []))
      ⊎ ((n : ℕ) × (find_last_not_of d s ≡ some n)
          × (take (suc n) s ≡ strip_right s d)
          × (take n s ≡ drop_last (strip_right s d))
          × (c : ℕ) × (r : Text) × (strip_right s d ≡ c ∷ r))
unfolding find_last_not_of
last_lem [] d = inl (refl, refl)
last_lem (c ∷ s) d = elim (last_lem s d) [
  | inl (nothing, gone) ↦ elim (Bool-cases (contains c d)) [
    | inl goes ↦ inl (rw (nothing, goes) refl, rw (gone, goes) refl)
    | inr stays ↦ inr (
      0,
      rw (nothing, stays) refl,
      rw (gone, stays) refl,
      rw (gone, stays) refl,
      c,
      [],
      rw (gone, stays) refl,
    )
  ]
  | inr (n, found, whole, part, e, r, kept) ↦ inr (
    suc n,
    rw found refl,
    rw (whole, kept) refl,
    rw kept (ap (λ t. c ∷ t) (rw kept at part)),
    c,
    e ∷ r,
    rw kept refl,
  )
]

-- `TrimRight` takes one character too many off the end: the last one that should stay is lost.
pub trim_right_loses_last : (s d : Text) → trim_right s d ≡ drop_last (strip_right s d)
unfolding trim_right
trim_right_loses_last s d = elim (last_lem s d) [
  | inl (nothing, gone) ↦ rw (nothing, gone) refl
  | inr (n, found, whole, part, c, r, kept) ↦ rw found part
]

one_more : (n : ℕ) → n - 0 + 1 ≡ suc n
one_more n = omega arith

plus_one : (n : ℕ) → n + 1 ≡ suc n
plus_one n = omega arith

shorter : (m b : ℕ) → suc m - suc b + 1 ≡ m - b + 1
shorter m b = omega arith

skip_first : (c : ℕ) (s d : Text) → contains c d ≡ true → trim (c ∷ s) d ≡ trim s d
unfolding trim find_first_not_of find_last_not_of
skip_first c s d goes = elim (Option-cases (find_first_not_of d s)) [
  | inl nothing ↦ rw (goes, nothing) refl
  | inr (b, found) ↦ elim (Option-cases (find_last_not_of d s)) [
    | inl none_left ↦ rw (goes, found, none_left) refl
    | inr (m, last) ↦ rw (goes, found, last) (ap (λ k. take k (drop b s)) (shorter m b))
  ]
]

-- `Trim` takes the characters of the set off both ends.
pub trim_lem : (s d : Text) → trim s d ≡ strip_right (strip_left s d) d
unfolding trim find_first_not_of
trim_lem [] d = refl
trim_lem (c ∷ s) d = elim (Bool-cases (contains c d)) [
  | inr stays ↦ elim (last_lem (c ∷ s) d) [
    | inl (nothing, gone) ↦ rw (stays, nothing) (sym gone)
    | inr (n, found, whole, part, e, r, kept) ↦
        rw (stays, found) (ap (λ k. take k (c ∷ s)) (one_more n) ∙ whole)
  ]
  | inl goes ↦ skip_first c s d goes ∙ trim_lem s d ∙ rw goes refl
]

from_first : (s d : Text) → from s (find_first_not_of d s) ≡ strip_left s d
unfolding trim_left
from_first s d = trim_left_lem s d

through_last : (s d : Text) → through s (find_last_not_of d s) ≡ strip_right s d
through_last s d = elim (last_lem s d) [
  | inl (nothing, gone) ↦ rw (nothing, gone) refl
  | inr (n, found, whole, part, c, r, kept) ↦ rw found (ap (λ k. take k s) (plus_one n) ∙ whole)
]

-- `ClearHeadTailSpace` takes the spaces off both ends.
pub clear_head_tail_space_lem :
    (s : Text) → clear_head_tail_space s ≡ strip_right (strip_left s (codes " ")) (codes " ")
unfolding clear_head_tail_space
clear_head_tail_space_lem [] = refl
clear_head_tail_space_lem (c ∷ s) =
    through_last _ (codes " ")
    ∙ ap (λ t. strip_right t (codes " ")) (from_first (c ∷ s) (codes " "))
