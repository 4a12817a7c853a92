-- ===== src/Util/Split/Query.antt =====
-- A query string that is printed and parsed.
use project_collection.Base.{
  ℕ, suc, ◌+◌, ◌≡◌, refl, ◌∙◌, ap, false, ◌==◌, List, [], ◌∷◌, ◌++◌, some, map, length, take, drop,
  arith, Bool-cases, inl, inr, ==_iff,
}
use project_collection.Base.Text.{Text, codes}
use project_collection.Redis.{insert, insert_all}
use project_collection.Util.Strings.{contains}
use project_collection.Util.Split.{starts_with, find, push_back, add_params, parse_param}
use project_collection.Util.Split.Pieces.{pieces, filled, my_split-pieces}

abbrev pub pair_text : Text × Text → Text
pair_text (name, value) = name ++ b'=' ∷ value

-- The pairs with `&` in between.
abbrev pub query : List (Text × Text) → Text
query [] = []
query (p ∷ []) = pair_text p
query (p ∷ q ∷ ps) = pair_text p ++ b'&' ∷ query (q ∷ ps)

-- No name has an `=`, and neither names nor values have an `&`.
abbrev pub ArePlain : List (Text × Text) → Type 0
ArePlain [] = Unit
ArePlain ((name, value) ∷ ps) =
    (contains b'=' name ≡ false)
    × (contains b'&' name ≡ false)
    × (contains b'&' value ≡ false)
    × ArePlain ps

other_char :
    (d c : ℕ) (s : Text) → contains d (c ∷ s) ≡ false → ((d == c) ≡ false) × (contains d s ≡ false)
other_char d c s h = elim (Bool-cases (d == c)) [
  | inl same ↦ (let clash = rw same at h in absurd (cc))
  | inr other ↦ (other, rw other at h)
]

contains-++ :
    (d : ℕ) (s t : Text) → contains d s ≡ false → contains d t ≡ false → contains d (s ++ t) ≡ false
contains-++ d [] t h k = k
contains-++ d (c ∷ s) t h k =
    let (other, rest) = other_char d c s h in rw (other, contains-++ d s t rest k) refl

pieces_whole : (d : ℕ) (s : Text) → contains d s ≡ false → pieces d s ≡ s ∷ []
pieces_whole d [] h = refl
pieces_whole d (c ∷ s) h =
    let (other, rest) = other_char d c s h in rw (other, pieces_whole d s rest) refl

pieces-++ : (d : ℕ) (s t : Text) → contains d s ≡ false → pieces d (s ++ d ∷ t) ≡ s ∷ pieces d t
pieces-++ d [] t h = rw ((==_iff d d).1 refl) refl
pieces-++ d (c ∷ s) t h =
    let (other, rest) = other_char d c s h in rw (other, pieces-++ d s t rest) refl

find_first :
    (d : ℕ) (s t : Text) → contains d s ≡ false → find (d ∷ []) (s ++ d ∷ t) ≡ some (length s)
unfolding find starts_with
find_first d [] t h = rw ((==_iff d d).1 refl) refl
find_first d (c ∷ s) t h =
    let (other, rest) = other_char d c s h in rw (other, find_first d s t rest) refl

take_before : (s t : Text) → take (length s) (s ++ t) ≡ s
take_before [] t = refl
take_before (c ∷ s) t = ap (λ r. c ∷ r) (take_before s t)

drop_behind : (d : ℕ) (s t : Text) → drop (suc (length s)) (s ++ d ∷ t) ≡ t
drop_behind d [] t = refl
drop_behind d (c ∷ s) t = drop_behind d s t

push_pair : (s t : Text) (d : ℕ) (ps : List Text) → push_back (s ++ d ∷ t) ps ≡ (s ++ d ∷ t) ∷ ps
push_pair [] t d ps = refl
push_pair (c ∷ s) t d ps = refl

pair_plain :
    (name value : Text)
    → contains b'&' name ≡ false
    → contains b'&' value ≡ false
    → contains b'&' (pair_text (name, value)) ≡ false
pair_plain name value h k = contains-++ b'&' name (b'=' ∷ value) h k

pieces-query :
    (ps : List (Text × Text)) → ArePlain ps → filled (pieces b'&' (query ps)) ≡ map pair_text ps
pieces-query [] plain = refl
pieces-query ((name, value) ∷ []) plain =
    rw (pieces_whole b'&' (pair_text (name, value)) (pair_plain name value plain.1 plain.2))
      (push_pair name value b'=' [])
pieces-query ((name, value) ∷ q ∷ ps) plain =
    rw
      (pieces-++ b'&' (pair_text (name, value)) (query (q ∷ ps))
        (pair_plain name value plain.1 plain.2))
      (push_pair name value b'=' _
        ∙ ap (λ r. pair_text (name, value) ∷ r) (pieces-query (q ∷ ps) plain.3))

add_params-pairs :
    (ps : List (Text × Text)) (m : List (Text × Text))
    → ArePlain ps
    → add_params (map pair_text ps) m ≡ insert_all ps m
unfolding add_params codes
add_params-pairs [] m plain = refl
add_params-pairs ((name, value) ∷ ps) m plain =
    let next : length name + 1 ≡ suc (length name) = omega arith in
    rw
      (
        add_params,
        codes,
        find_first b'=' name value plain.0,
        take_before name (b'=' ∷ value),
        next,
        drop_behind b'=' name value,
      )
      (add_params-pairs ps (insert name value m) plain.3)

-- Where no name has an equals sign or an ampersand and no value has an ampersand, the parameters of a
-- printed query string come back: each is set in turn in the map that is given.
pub parse_param-query :
    (ps m : List (Text × Text)) → ArePlain ps → parse_param (query ps) m ≡ some (insert_all ps m)
unfolding parse_param codes
parse_param-query ps m plain =
    rw (my_split-pieces b'&' (query ps), pieces-query ps plain)
      (ap some (add_params-pairs ps m plain))
