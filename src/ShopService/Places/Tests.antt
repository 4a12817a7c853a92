-- ===== src/ShopService/Places/Tests.antt =====
-- Three shops of two types: their places, and a search around one.
use project_collection.Base.{◌≡◌, refl, ◌⊎◌, [], some, none, map}
use project_collection.Base.Int.{ℤ, pos}
use project_collection.Base.Text.{Text, codes, text_eq, atol, digits_value}
use project_collection.Common.{
  ok, raised, Exception, Json, str, obj, field, end, get, is_member, member,
}
use project_collection.Models.{eqb_ℤ}
use project_collection.Database.{select}
use project_collection.Orm.Memory.{plain}
use project_collection.ShopService.Memory.{shop_table, shop_table-IsReader}
use project_collection.ShopService.Places.{
  last_place, shop_geo_key, type_of, place_of, load_shop_data,
}
use project_collection.ShopService.Places.Loaded.{load_shop_data-places}
use project_collection.ShopService.Places.Memory.{doubles, places, places-IsGeo, start}
use project_collection.ShopService.Search.{Search, search_of, query_by_type}
use project_collection.ShopService.Search.Pages.{query_by_type-place}

load_shop_data-places_example :
    ((load_shop_data places shop_table doubles start).0 ≡ ok tt)
    × ((load_shop_data places shop_table doubles start).1.db ≡ start.db)
    × ((j : ℤ) (m : Text)
        → places.position
            (load_shop_data places shop_table doubles start).1.server
            (shop_geo_key j)
            m
          ≡ last_place m (map (place_of doubles) (select (λ s. eqb_ℤ (type_of s) j) start.db)) none)
load_shop_data-places_example =
    load_shop_data-places places shop_table doubles places-IsGeo shop_table-IsReader start
      (λ j. refl) (refl, (refl, (refl, tt)))

abbrev near : Json
near = obj (
    field (codes "typeId") (str (codes "1"))
      (field (codes "x") (str (codes "120")) (field (codes "y") (str (codes "30")) end)))

abbrev asked : Search
asked = record { type_id = pos 1; current = pos 0; x = 0; y = 0 }

near_read : search_of plain doubles near ≡ ok asked
unfolding search_of get member is_member codes text_eq atol digits_value
near_read = refl

query_by_type-place_example :
    ((query_by_type places shop_table plain doubles near start).0 ≡ ok (some []))
    ⊎ ((e : Exception) × ((query_by_type places shop_table plain doubles near start).0 ≡ raised e))
query_by_type-place_example =
    query_by_type-place places shop_table plain doubles start near asked near_read refl
