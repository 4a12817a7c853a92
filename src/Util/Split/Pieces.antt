-- ===== src/Util/Split/Pieces.antt =====
-- Splitting ends unless the separator is empty, and splits at a character.
use project_collection.Base.{
  ℕ, zero, suc, ◌+◌, ◌-◌, ◌≤◌, ◌<◌, ◌≡◌, ◌≢◌, refl, subst, ◌∙◌, sym, ◌&&◌, ◌==◌, List, [], ◌∷◌,
  none, some, length, take, drop, arith, Bool-cases, Option-cases, inl, inr, if◌then◌else◌, ◌↔◌,
}
use project_collection.Base.Text.{Text}
use project_collection.Util.Split.{starts_with, find, push_back, split_from, my_split}

length-drop : (n : ℕ) (s : Text) → length (drop n s) ≤ length s - n
length-drop zero s = omega arith
length-drop (suc n) [] = omega arith
length-drop (suc n) (c ∷ s) = let rest = length-drop n s in omega (arith, rest)

-- An occurrence of a separator lies within the text.
find_within : (d : ℕ) (sp s : Text) (i : ℕ) → find (d ∷ sp) s ≡ some i → i < length s
unfolding find starts_with
find_within d sp [] i h = absurd cc
find_within d sp (c ∷ s) i h = elim (Bool-cases ((d == c) && starts_with sp s)) [
  | inl here ↦
      (let same : some 0 ≡ some i = rw here at h in
        let zero_here : 0 ≡ i = cc in omega (arith, zero_here))
  | inr other ↦ elim (Option-cases (find (d ∷ sp) s)) [
    | inl nothing ↦ (let clash = rw (other, nothing) at h in cc)
    | inr (k, later) ↦
        let same : some (suc k) ≡ some i = rw (other, later) at h in
        let next : suc k ≡ i = cc in
        let inside = find_within d sp s k later in omega (arith, next, inside)
  ]
]

-- With a separator that is not empty, as much fuel as the text is long, and one, is enough.
pub split_from_ends :
    (n d : ℕ) (sp s : Text) → length s < n → (ps : List Text) × (split_from n (d ∷ sp) s ≡ some ps)
unfolding split_from
split_from_ends zero d sp s h = absurd (omega (arith, h))
split_from_ends (suc n) d sp s h = elim (Option-cases (find (d ∷ sp) s)) [
  | inl nothing ↦ (push_back s [], rw (split_from, nothing) refl)
  | inr (i, here) ↦
      let inside = find_within d sp s i here in
      let shorter = length-drop (i + length (d ∷ sp)) s in
      let (ps, later) =
        split_from_ends n d sp (drop (i + length (d ∷ sp)) s) (omega (arith, inside, shorter, h)) in
      (push_back (take i s) ps, rw (split_from, here, later) refl)
]

-- The text between the separators, empty ones too.
abbrev pub push : ℕ → List Text → List Text
push c [] = (c ∷ []) ∷ []
push c (p ∷ ps) = (c ∷ p) ∷ ps

abbrev pub pieces : ℕ → Text → List Text
pieces d [] = [] ∷ []
pieces d (c ∷ s) = let rest = pieces d s in if d == c then [] ∷ rest else push c rest

abbrev pub filled : List Text → List Text
filled [] = []
filled (p ∷ ps) = push_back p (filled ps)

-- Without fuel for it, an empty separator is found at once, again and again.
pub never_ends : (n : ℕ) (s : Text) → split_from n [] s ≡ none
unfolding split_from find starts_with
never_ends zero s = refl
never_ends (suc n) [] = rw (never_ends n []) refl
never_ends (suc n) (c ∷ s) = rw (never_ends n (c ∷ s)) refl

find_char_none : (d : ℕ) (s : Text) → find (d ∷ []) s ≡ none → pieces d s ≡ s ∷ []
unfolding find starts_with
find_char_none d [] h = refl
find_char_none d (c ∷ s) h = elim (Bool-cases (d == c)) [
  | inl here ↦ (let clash = rw here at h in cc)
  | inr other ↦ elim (Option-cases (find (d ∷ []) s)) [
    | inl nothing ↦ rw (other, find_char_none d s nothing) refl
    | inr (k, later) ↦ (let clash = rw (other, later) at h in cc)
  ]
]

find_char_some :
    (d : ℕ) (s : Text) (i : ℕ)
    → find (d ∷ []) s ≡ some i
    → pieces d s ≡ take i s ∷ pieces d (drop (suc i) s)
unfolding find starts_with
find_char_some d [] i h = absurd cc
find_char_some d (c ∷ s) i h = elim (Bool-cases (d == c)) [
  | inl here ↦
      let same : some 0 ≡ some i = rw here at h in
      let first : 0 ≡ i = cc in
      subst (λ k. pieces d (c ∷ s) ≡ take k (c ∷ s) ∷ pieces d (drop (suc k) (c ∷ s))) first
        (rw here refl)
  | inr other ↦ elim (Option-cases (find (d ∷ []) s)) [
    | inl nothing ↦ (let clash = rw (other, nothing) at h in cc)
    | inr (k, later) ↦
        let same : some (suc k) ≡ some i = rw (other, later) at h in
        let next : suc k ≡ i = cc in
        subst (λ m. pieces d (c ∷ s) ≡ take m (c ∷ s) ∷ pieces d (drop (suc m) (c ∷ s))) next
          (rw (other, find_char_some d s k later) refl)
  ]
]

split_from-pieces :
    (n d : ℕ) (s : Text) → length s < n → split_from n (d ∷ []) s ≡ some (filled (pieces d s))
unfolding split_from
split_from-pieces zero d s h = absurd (omega (arith, h))
split_from-pieces (suc n) d s h = elim (Option-cases (find (d ∷ []) s)) [
  | inl nothing ↦ rw (split_from, nothing, find_char_none d s nothing) refl
  | inr (i, here) ↦
      let inside = find_within d [] s i here in
      let shorter = length-drop (suc i) s in
      let next : i + 1 ≡ suc i = omega arith in
      rw
        (
          split_from,
          here,
          next,
          split_from-pieces n d (drop (suc i) s) (omega (arith, inside, shorter, h)),
          find_char_some d s i here,
        )
        refl
]

-- Splitting at a character gives the texts between its occurrences, less the empty ones.
pub my_split-pieces : (d : ℕ) (s : Text) → my_split s (d ∷ []) ≡ some (filled (pieces d s))
unfolding my_split
my_split-pieces d s = split_from-pieces (suc (length s)) d s (omega arith)

-- mySplit returns exactly when the separator is not empty; with an empty one no number of rounds is
-- enough, and the loop of the source does not end.
pub my_split_ends :
    (str sp_string : Text)
    → (((ps : List Text) × (my_split str sp_string ≡ some ps)) ↔ (sp_string ≢ []))
      × ((n : ℕ) → split_from n [] str ≡ none)
unfolding my_split
my_split_ends str [] = (
  (
    (λ (ps, e).
        let never = never_ends (suc (length str)) str in absurd (let clash = sym never ∙ e in cc)),
    (λ h. absurd (h refl)),
  ),
  λ n. never_ends n str,
)
my_split_ends str (d ∷ sp) = (
  ((λ ended. λ e. cc), (λ h. split_from_ends (suc (length str)) d sp str (omega arith))),
  λ n. never_ends n str,
)
