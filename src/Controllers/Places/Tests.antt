-- ===== src/Controllers/Places/Tests.antt =====
-- Pages of two tea houses.
use project_collection.Base.{◌≡◌, refl, List, [], ◌∷◌, some}
use project_collection.Base.Int.{pos}
use project_collection.Base.Text.{Text, codes, text_eq, atol, digits_value}
use project_collection.Common.{ok, get, member, is_member, set_member, make_list_json}
use project_collection.Redis.{insert_all}
use project_collection.Orm.Memory.{plain}
use project_collection.Util.Split.Query.{query, ArePlain}
use project_collection.ShopService.Texts.{convert_map_to_json}
use project_collection.ShopService.Search.{Search, search_of, minus_one}
use project_collection.ShopService.Memory.{shop_table, shop_table-IsReader}
use project_collection.Controllers.Shops.{shop_json}
use project_collection.Controllers.Places.{query_shop_by_type, query_shop_by_type-page}
use project_collection.ShopService.Places.Memory.{doubles, places, places-IsGeo, of_type, start}

abbrev params : List (Text × Text)
params = (codes "typeId", codes "1") ∷ (codes "current", codes "1") ∷ []

params-ArePlain : ArePlain params
unfolding codes
params-ArePlain = (refl, refl, refl, (refl, refl, refl, tt))

abbrev asked : Search
asked = record { type_id = pos 1; current = pos 1; x = minus_one; y = minus_one }

params_read : search_of plain doubles (convert_map_to_json (insert_all params [])) ≡ ok asked
unfolding search_of convert_map_to_json set_member get member is_member codes text_eq atol
    digits_value
params_read = refl

query_shop_by_type-page_example :
    (query_shop_by_type places shop_table plain doubles (query params) start).0
    ≡ ok (some (make_list_json (shop_json plain) (of_type 6 1 ∷ [])))
query_shop_by_type-page_example =
    query_shop_by_type-page places shop_table plain doubles places-IsGeo shop_table-IsReader start
      params asked 1 (λ j. refl) (refl, (refl, (refl, tt))) params-ArePlain params_read refl refl
