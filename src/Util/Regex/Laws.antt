-- ===== src/Util/Regex/Laws.antt =====
-- Which texts the expressions match.
use project_collection.Base.{
  ℕ, zero, suc, ◌≡◌, refl, ◌∙◌, Bool, true, false, ◌&&◌, ◌||◌, [], ◌∷◌, arith, Bool-cases, inl, inr,
  ◌+◌, leb, length, not,
}
use project_collection.Base.Text.{Text}
use project_collection.Util.Regex.{
  Regex, never, empty, one_of, seq, alt, star, nullable, derive, regex_match, match_prefix,
  regex_search, between, up_to, plus,
}

or_false : (x : Bool) → x ≡ (x || false)
or_false x = ground arith

or_regroup : (x y m n d : Bool) → (x || y || ((m || n) && d)) ≡ (x || (m && d) || (y || (n && d)))
or_regroup x y m n d = ground arith

pub match-never : (s : Text) → regex_match never s ≡ false
unfolding regex_match
match-never [] = refl
match-never (c ∷ s) = match-never s

pub match-alt :
    (a b : Regex) (s : Text) → regex_match (alt a b) s ≡ (regex_match a s || regex_match b s)
unfolding regex_match
match-alt a b [] = refl
match-alt a b (c ∷ s) = match-alt (derive a c) (derive b c) s

match-seq_never : (b : Regex) (s : Text) → regex_match (seq never b) s ≡ false
unfolding regex_match
match-seq_never b [] = refl
match-seq_never b (c ∷ s) = match-seq_never b s

match-seq_empty : (b : Regex) (s : Text) → regex_match (seq empty b) s ≡ regex_match b s
unfolding regex_match
match-seq_empty b [] = refl
match-seq_empty b (c ∷ s) = match-alt (seq never b) (derive b c) s ∙ rw (match-seq_never b s) refl

-- A character class, and what follows it.
pub match-seq_one_of :
    (p : ℕ → Bool) (b : Regex) (c : ℕ) (s : Text)
    → regex_match (seq (one_of p) b) (c ∷ s) ≡ (p c && regex_match b s)
unfolding regex_match
match-seq_one_of p b c s = elim (Bool-cases (p c)) [
  | inl hit ↦ rw hit (match-seq_empty b s)
  | inr miss ↦ rw miss (match-seq_never b s)
]

match-step :
    (a r : Regex) (c : ℕ) (s : Text)
    → regex_match (seq a r) (c ∷ s)
      ≡ (regex_match (seq (derive a c) r) s || (nullable a && regex_match (derive r c) s))
unfolding regex_match
match-step a r c s = elim (Bool-cases (nullable a)) [
  | inl passes ↦ rw passes (match-alt (seq (derive a c) r) (derive r c) s)
  | inr fails ↦ rw fails (or_false _)
]

-- An alternative in front is an alternative of the whole.
pub match-seq_or :
    (a b r : Regex) (s : Text)
    → regex_match (seq (alt a b) r) s ≡ (regex_match (seq a r) s || regex_match (seq b r) s)
unfolding regex_match
match-seq_or a b r [] = ground arith
match-seq_or a b r (c ∷ s) =
    rw
      (
        match-step (alt a b) r c s,
        match-step a r c s,
        match-step b r c s,
        match-seq_or (derive a c) (derive b c) r s,
      )
      (or_regroup (regex_match (seq (derive a c) r) s) (regex_match (seq (derive b c) r) s)
        (nullable a) (nullable b) (regex_match (derive r c) s))

abbrev pub all : (ℕ → Bool) → Text → Bool
all p [] = true
all p (c ∷ s) = p c && all p s

match-empty : (s : Text) → regex_match empty s ≡ leb (length s) 0
unfolding regex_match
match-empty [] = refl
match-empty (c ∷ s) = match-never s ∙ ground arith

none_left : (p : ℕ → Bool) (s : Text) → leb (length s) 0 ≡ (leb (length s) 0 && all p s)
none_left p [] = refl
none_left p (c ∷ s) = ground arith

match-up_to :
    (p : ℕ → Bool) (m : ℕ) (s : Text)
    → regex_match (up_to m (one_of p)) s ≡ (leb (length s) m && all p s)
unfolding up_to
match-up_to p zero s = match-empty s ∙ none_left p s
match-up_to p (suc m) [] = unfold regex_match in ground arith
match-up_to p (suc m) (c ∷ s) =
    rw
      (
        match-alt empty (seq (one_of p) (up_to m (one_of p))) (c ∷ s),
        match-empty (c ∷ s),
        match-seq_one_of p (up_to m (one_of p)) c s,
        match-up_to p m s,
      )
      (ground arith)

-- Between n and n+m characters of a class.
pub match-between :
    (p : ℕ → Bool) (n m : ℕ) (s : Text)
    → regex_match (between n m (one_of p)) s
      ≡ (leb n (length s) && leb (length s) (n + m) && all p s)
unfolding between
match-between p zero m s = match-up_to p m s ∙ ground arith
match-between p (suc n) m [] = unfold regex_match in ground arith
match-between p (suc n) m (c ∷ s) =
    rw (match-seq_one_of p (between n m (one_of p)) c s, match-between p n m s) (ground arith)

prefix-star : (a : Regex) (s : Text) → match_prefix (seq empty (star a)) s ≡ true
unfolding match_prefix
prefix-star a [] = refl
prefix-star a (c ∷ s) = refl

prefix-never : (a : Regex) (s : Text) → match_prefix (seq never a) s ≡ false
unfolding match_prefix
prefix-never a [] = refl
prefix-never a (c ∷ s) = prefix-never a s

prefix-plus : (p : ℕ → Bool) (c : ℕ) (s : Text) → match_prefix (plus (one_of p)) (c ∷ s) ≡ p c
unfolding match_prefix
prefix-plus p c s = elim (Bool-cases (p c)) [
  | inl hit ↦ rw hit (prefix-star (one_of p) s)
  | inr miss ↦ rw miss (prefix-never (star (one_of p)) s)
]

-- A class with + behind it is found exactly in the texts that hold one of its characters.
pub search-plus :
    (p : ℕ → Bool) (s : Text) → regex_search (plus (one_of p)) s ≡ not (all (λ c. not (p c)) s)
unfolding regex_search
search-plus p [] = refl
search-plus p (c ∷ s) = rw (prefix-plus p c s, search-plus p s) (ground arith)
