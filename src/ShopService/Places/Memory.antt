-- ===== src/ShopService/Places/Memory.antt =====
-- Places in memory, and three shops of two types.
use project_collection.Base.{ℕ, refl, true, false, List, [], ◌∷◌, Option, some, none, if◌then◌else◌}
use project_collection.Base.Int.{pos}
use project_collection.Base.Text.{Text, codes, text_eq, digits}
use project_collection.Common.{ok}
use project_collection.VoucherOrder.Backing.{World}
use project_collection.Orm.{Row, unset}
use project_collection.Orm.Values.{number}
use project_collection.ShopService.Places.{Doubles, Geo, IsGeo, Place, last_place}
use project_collection.ShopService.Search.{minus_one}

-- Only -1 is read.
abbrev pub doubles : Doubles
doubles = record { atof = λ s. if text_eq s (codes "-1") then minus_one else 0; print = digits }

-- Where the members of the keys stand.
abbrev pub Positions : Type 0
Positions = Text → Text → Option (Text × Text)

abbrev map_add : Text → List Place → Positions → Positions
map_add k ps s j m = if text_eq k j then last_place m ps (s j m) else s j m

abbrev pub places : Geo Positions
places = record {
  geo_add = λ k ps s. (ok (pos 0), map_add k ps s);
  geo_search = λ k x y s. (ok [], s);
  position = λ s. s;
  is_free = λ s k. true;
  is_valid = λ p. true;
}

pub places-IsGeo : IsGeo places
places-IsGeo = record {
  added = λ k ps s free valid. (pos 0, refl);
  stays_free = λ k ps s j free. refl;
  placed = λ k ps s j m free valid. refl;
}

abbrev pub of_type : ℕ → ℕ → Row
of_type id type_id =
    record { value = some (number (pos id)); dirty = false }
    ∷ unset
    ∷ record { value = some (number (pos type_id)); dirty = false }
    ∷ []

abbrev pub start : World Positions (List Row)
start = record { server = λ j m. none; db = of_type 4 1 ∷ of_type 5 2 ∷ of_type 6 1 ∷ [] }
