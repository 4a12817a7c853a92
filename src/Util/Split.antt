-- ===== src/Util/Split.antt =====
-- source/utils/CommonUtils.cpp: mySplit and parseParam. The text that is left to split stands for the
-- position in the whole text.
pub mod Pieces
pub mod Query
mod Tests
use project_collection.Base.{
  ℕ, zero, suc, ◌+◌, Bool, true, false, ◌&&◌, ◌==◌, List, [], ◌∷◌, none, some, length, take, drop,
  if◌then◌else◌,
}
use project_collection.Base.Text.{Text, codes}
use project_collection.Redis.{insert}
use mathlib.Core.Option
use mathlib.Core.Option.{Option}

unfoldable pub starts_with : Text → Text → Bool
starts_with [] s = true
starts_with (d ∷ sp) [] = false
starts_with (d ∷ sp) (c ∷ s) = (d == c) && starts_with sp s

-- `find`; none is npos.
unfoldable pub find : Text → Text → Option ℕ
unfolding starts_with
find sp [] = if starts_with sp [] then some 0 else none
find sp (c ∷ s) =
    let later = find sp s in if starts_with sp (c ∷ s) then some 0 else Option.map suc later

abbrev pub push_back : Text → List Text → List Text
push_back [] pieces = pieces
push_back (c ∷ s) pieces = (c ∷ s) ∷ pieces

-- On fuel; none is running out of it.
unfoldable pub split_from : ℕ → Text → Text → Option (List Text)
unfolding find
split_from zero sp rest = none
split_from (suc n) sp rest = elim (find sp rest) [
  | none ↦ some (push_back rest [])
  | some index ↦
      Option.map (push_back (take index rest)) (split_from n sp (drop (index + length sp) rest))
]

-- A round for each character, and one more.
unfoldable pub my_split : Text → Text → Option (List Text)
unfolding split_from
my_split str sp_string = split_from (suc (length str)) sp_string str

-- `substr(0, find("="))`, and `substr(find("=") + 1)`, which is everything without an `=`.
abbrev name_before : Option ℕ → Text → Text
name_before none pair = pair
name_before (some i) pair = take i pair

abbrev value_behind : Option ℕ → Text → Text
value_behind none pair = pair
value_behind (some i) pair = drop (i + 1) pair

unfoldable pub add_params : List Text → List (Text × Text) → List (Text × Text)
unfolding find
add_params [] req_params = req_params
add_params (pair ∷ pairs) req_params = add_params pairs (
    insert (name_before (find (codes "=") pair) pair) (value_behind (find (codes "=") pair) pair)
      req_params)

unfoldable pub parse_param : Text → List (Text × Text) → Option (List (Text × Text))
unfolding my_split add_params
parse_param params_str req_params =
    Option.map (λ pairs. add_params pairs req_params) (my_split params_str (codes "&"))
