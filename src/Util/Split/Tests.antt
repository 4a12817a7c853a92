-- ===== src/Util/Split/Tests.antt =====
-- The query string of a search for shops.
use project_collection.Base.{ℕ, ◌≡◌, ◌≢◌, ◌↔◌, refl, List, [], ◌∷◌, some, none}
use project_collection.Base.Text.{Text, codes, text_eq}
use project_collection.Redis.{insert_all}
use project_collection.Util.Split.{find, starts_with, split_from, my_split, parse_param, add_params}
use project_collection.Util.Split.Pieces.{my_split_ends}
use project_collection.Util.Split.Query.{query, ArePlain, parse_param-query}

abbrev search : List (Text × Text)
search = (codes "typeId", codes "1") ∷ (codes "current", codes "2") ∷ []

printed : query search ≡ codes "typeId=1&current=2"
unfolding codes
printed = refl

-- A name without a value gets itself as the value.
bare : parse_param (codes "a&&b=") [] ≡ some ((codes "a", codes "a") ∷ (codes "b", []) ∷ [])
unfolding parse_param my_split split_from find starts_with add_params codes text_eq
bare = refl

my_split_ends_example :
    (((ps : List Text) × (my_split (codes "a&b") (codes "&") ≡ some ps)) ↔ (codes "&" ≢ []))
    × ((n : ℕ) → split_from n [] (codes "a&b") ≡ none)
my_split_ends_example = my_split_ends (codes "a&b") (codes "&")

search-ArePlain : ArePlain search
unfolding codes
search-ArePlain = (refl, refl, refl, (refl, refl, refl, tt))

parse_param-query_example : parse_param (query search) [] ≡ some (insert_all search [])
parse_param-query_example = parse_param-query search [] search-ArePlain
