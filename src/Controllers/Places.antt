-- ===== src/Controllers/Places.antt =====
-- source/controllers/ShopController.cc: queryShopByType, from the query string to the JSON answer.
mod Tests
use project_collection.Base.{
  ℕ, ◌≡◌, refl, ◌∙◌, ap, Bool, true, ◌||◌, ◌==◌, List, [], ◌∷◌, Option, some, none, take, drop,
}
use project_collection.Base.Int.{ℤ, pos}
use project_collection.Base.Text.{Text}
use project_collection.Common.{
  Outcome, ok, Action, pure, try_catch, ◌>>=◌, ◌>>◌, Exception, Json, make_list_json,
}
use project_collection.Redis.{insert_all}
use project_collection.Models.{is_number}
use project_collection.Database.{Mapper, IsReader, select}
use project_collection.VoucherOrder.Backing.{World}
use project_collection.Orm.{Row}
use project_collection.Orm.Values.{Reads}
use project_collection.Orm.Access.{number_column}
use project_collection.Util.Split.{parse_param}
use project_collection.Util.Split.Query.{query, ArePlain, parse_param-query}
use project_collection.ShopService.Texts.{convert_map_to_json}
use project_collection.ShopService.Places.{Doubles, Geo, IsGeo}
use project_collection.ShopService.Places.Loaded.{AreFree, ArePlaced}
use project_collection.ShopService.Search.{Search, search_of, minus_one, to_int, query_by_type}
use project_collection.ShopService.Search.Pages.{query_by_type-page}
use project_collection.Controllers.{answer_error}
use project_collection.Controllers.Shops.{shop_json}

module _ {Server Db : Type 0} (geo : Geo Server) (shops : Mapper Row Db) (reads : Reads)
    (d : Doubles) where
  abbrev answer_shops : Option (List Row) → Option Json
  answer_shops none = none
  answer_shops (some found) = some (make_list_json (shop_json reads) found)

  abbrev with_params : Option (List (Text × Text)) → Action (World Server Db) (Option Json)
  with_params none = pure none
  with_params (some params) = do
    found ← query_by_type geo shops reads d (convert_map_to_json params)
    pure (answer_shops found)

  -- None stands for a loop of parseParam without an end, and for undefined behaviour.
  unfoldable pub query_shop_by_type : Text → Action (World Server Db) (Option Json)
  query_shop_by_type query_str =
      try_catch (with_params (parse_param query_str [])) λ e. answer_error e >>= λ j. pure (some j)

  -- For a query string of plain parameters that give no place, with nothing but places under the keys
  -- of the types and every shop in the range of Redis: the client receives, with code 0, the first
  -- five shops of the type, less as many as the parameter `current` says.
  pub query_shop_by_type-page :
      (laws : IsGeo geo) (finds : IsReader shops) (w : World Server Db) (ps : List (Text × Text))
      (s : Search) (n : ℕ)
      → AreFree geo shops d laws w.server
      → ArePlaced geo shops d laws (shops.rows w.db)
      → ArePlain ps
      → search_of reads d (convert_map_to_json (insert_all ps [])) ≡ ok s
      → ((s.x == minus_one) || (s.y == minus_one)) ≡ true
      → to_int s.current ≡ pos n
      → (query_shop_by_type (query ps) w).0
        ≡ ok (
            some (
              make_list_json (shop_json reads) (
                drop n (
                  take 5 (
                    select (λ row. is_number (number_column 2 row) s.type_id) (shops.rows w.db))))))
  unfolding query_shop_by_type
  query_shop_by_type-page laws finds w ps s n free placed plain read nowhere page =
      let found =
        query_by_type-page geo shops reads d laws finds w (convert_map_to_json (insert_all ps [])) s
          n free placed read nowhere page in
      let whole : query_by_type geo shops reads d (convert_map_to_json (insert_all ps [])) w ≡ (
        ok (
            some (
              drop n (
                take 5
                  (select (λ row. is_number (number_column 2 row) s.type_id) (shops.rows w.db))))),
        (query_by_type geo shops reads d (convert_map_to_json (insert_all ps [])) w).1,
      ) =
        ap
          (λ o. (o, (query_by_type geo shops reads d (convert_map_to_json (insert_all ps [])) w).1))
          found in
      rw (parse_param-query ps [] plain, whole) refl
