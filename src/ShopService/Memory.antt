-- ===== src/ShopService/Memory.antt =====
-- A table of shops in memory, and texts of JSON objects that read back.
use project_collection.Base.{
  ℕ, suc, ◌≡◌, ◌==◌, refl, Bool, true, false, List, [], ◌∷◌, ◌++◌, length, drop, take, map,
  if◌then◌else◌,
}
use project_collection.Base.Int.{pos, negsuc}
use project_collection.Base.Text.{Text}
use project_collection.Common.{
  ok, Json, null, boolean, int, real, str, arr, obj, Fields, end, field,
}
use project_collection.Database.{Mapper, IsReader, select}
use project_collection.Database.Memory.{reader, unique_refused}
use project_collection.Orm.{Row}
use project_collection.Orm.Memory.{plain}
use project_collection.ShopService.{value_of_id, is_shop}
use project_collection.ShopService.Texts.{Styled}
use project_collection.ShopService.Maps.{IsScalar, IsTexts}

-- A tag, and for a text its length.
abbrev print_value : Json → Text
print_value null = 0 ∷ []
print_value (int (pos n)) = 1 ∷ n ∷ []
print_value (int (negsuc n)) = 2 ∷ n ∷ []
print_value (real b) = 3 ∷ b ∷ []
print_value (str s) = 4 ∷ length s ∷ s
print_value _ = 5 ∷ []

abbrev print_fields : Fields → Text
print_fields end = []
print_fields (field k v fs) = length k ∷ k ++ (print_value v ++ print_fields fs)

abbrev read_one : (ℕ → Json) → Text → Json × Text
read_one f [] = (null, [])
read_one f (n ∷ s) = (f n, s)

abbrev read_text : Text → Json × Text
read_text [] = (null, [])
read_text (n ∷ s) = (str (take n s), drop n s)

abbrev read_value : Text → Json × Text
read_value [] = (null, [])
read_value (tag ∷ s) =
    if tag == 1
    then read_one (λ n. int (pos n)) s
    else if tag == 2
    then read_one (λ n. int (negsuc n)) s
    else if tag == 3
    then read_one real s
    else if tag == 4
    then read_text s
    else (null, s)

abbrev read_fields : ℕ → Text → Fields
read_fields (suc fuel) (n ∷ s) =
    let after = read_value (drop n s) in field (take n s) after.0 (read_fields fuel after.1)
read_fields _ _ = end

-- An object or another value.
abbrev print : Json → Text
print (obj fs) = 0 ∷ print_fields fs
print j = 1 ∷ print_value j

abbrev parse : Text → Bool × Json
parse [] = (false, null)
parse (tag ∷ s) =
    if tag == 0 then (true, obj (read_fields (length s) s)) else (true, (read_value s).0)

abbrev pub printer : Styled
printer = record { parse = parse; styled = print }

abbrev scalar_text : (j : Json) → IsScalar j → (t : Text) × (plain.as_string j ≡ ok t)
scalar_text null h = (_, refl)
scalar_text (boolean true) h = (_, refl)
scalar_text (boolean false) h = (_, refl)
scalar_text (int z) h = (_, refl)
scalar_text (real b) h = (_, refl)
scalar_text (str s) h = (_, refl)
scalar_text (arr js) h = absurd h
scalar_text (obj fs) h = absurd h

pub plain-IsTexts : IsTexts plain
plain-IsTexts = record { text_of = scalar_text }

-- An update replaces the rows of its id.
abbrev replace : Row → List Row → List Row
replace s rows = map (λ t. if is_shop (value_of_id s) t then s else t) rows

abbrev pub shop_table : Mapper Row (List Row)
shop_table = record (reader (λ d. d) (λ s d. (ok s, d ++ s ∷ []))) {
  update = λ s d. (ok (length (select (is_shop (value_of_id s)) d)), replace s d);
}

pub shop_table-IsReader : IsReader shop_table
shop_table-IsReader = record {
  all_found = λ d. refl;
  found = λ p d. refl;
  one = λ p d x e. rw e refl;
  not_one = λ p d h. let (e, threw) = unique_refused (select p d) h in (e, rw threw refl);
}
