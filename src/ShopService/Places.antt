-- ===== src/ShopService/Places.antt =====
-- The places of the shops in Redis: loadShopData.
pub mod Groups
pub mod Loaded
pub mod Memory
mod Tests
use project_collection.Base.{
  ℕ, ◌≡◌, Bool, true, false, List, [], ◌∷◌, ◌++◌, All, Option, some, none, map, if◌then◌else◌,
}
use project_collection.Base.Int.{ℤ, ltb_ℤ}
use project_collection.Base.Text.{Text, codes, text_eq, to_string}
use project_collection.Common.{
  ok, Action, pure, raise, throw, try_catch, ◌>>=◌, ◌>>◌, Exception, drogon_db_exception,
  redis_exception, db_error, cache_error,
}
use project_collection.Models.{eqb_ℤ}
use project_collection.Database.{Mapper}
use project_collection.VoucherOrder.Backing.{World, at_server, at_db}
use project_collection.Orm.{Row}
use project_collection.Orm.Values.{signed}
use project_collection.Orm.Access.{number_at, double_at}

-- `atof` and `std::to_string` of the C++ library for a `double`, which stands as its 64 bits.
pub record Doubles : Type 0 where
  pub atof : Text → ℕ
  pub print : ℕ → Text

-- A longitude, a latitude and a member.
abbrev pub Place : Type 0
Place = Text × Text × Text

-- The commands of Redis for places: `execute<Int64>` of GEOADD, and `execute<Array>` of GEOSEARCH
-- FROMLONLAT BYRADIUS 5000 km WITHDIST, whose elements are arrays of a member and its distance.
-- `position` is where a member stands under a key, and `is_free` tells that the key holds places or
-- nothing, and `is_valid` that a longitude and a latitude are in the range of Redis.
pub record Geo (Server : Type 0) : Type 0 where
  pub geo_add : Text → List Place → Action Server ℤ
  pub geo_search : Text → Text → Text → Action Server (List (Text × Text))
  pub position : Server → Text → Text → Option (Text × Text)
  pub is_free : Server → Text → Bool
  pub is_valid : Place → Bool

-- Of the places of one member the last counts.
abbrev pub last_place : Text → List Place → Option (Text × Text) → Option (Text × Text)
last_place m [] old = old
last_place m ((x, y, k) ∷ ps) old = last_place m ps (if text_eq k m then some (x, y) else old)

-- GEOADD takes places in the range only, and an error reply is thrown.
abbrev pub AreValid : {Server : Type 0} → Geo Server → List Place → Type 0
AreValid geo = All λ p. geo.is_valid p ≡ true

pub record IsGeo {Server : Type 0} (geo : Geo Server) : Type 0 where
  pub added :
      (k : Text) (ps : List Place) (s : Server)
      → geo.is_free s k ≡ true
      → AreValid geo ps
      → (n : ℤ) × ((geo.geo_add k ps s).0 ≡ ok n)
  pub stays_free :
      (k : Text) (ps : List Place) (s : Server) (j : Text)
      → geo.is_free s j ≡ true
      → geo.is_free (geo.geo_add k ps s).1 j ≡ true
  pub placed :
      (k : Text) (ps : List Place) (s : Server) (j m : Text)
      → geo.is_free s k ≡ true
      → AreValid geo ps
      → geo.position (geo.geo_add k ps s).1 j m
        ≡ (if text_eq k j then last_place m ps (geo.position s j m) else geo.position s j m)

-- RedisConstants
abbrev pub shop_geo_key : ℤ → Text
shop_geo_key type_id = codes "shop:geo:" ++ to_string type_id

-- `long typeId = shop.getValueOfTypeId()`
abbrev pub type_of : Row → ℤ
type_of shop = signed 9223372036854775808 18446744073709551616 (number_at 2 shop)

abbrev pub place_of : Doubles → Row → Place
place_of d shop =
    (d.print (double_at 6 shop), d.print (double_at 7 shop), to_string (number_at 0 shop))

-- The `std::map` of the shops by type, in the order of its keys.
abbrev pub Shelves : Type 0
Shelves = List (ℤ × List Row)

unfoldable pub insert_shop : ℤ → Row → Shelves → Shelves
insert_shop type_id shop [] = (type_id, shop ∷ []) ∷ []
insert_shop type_id shop ((u, rows) ∷ groups) =
    let later = insert_shop type_id shop groups in
    if eqb_ℤ u type_id
    then (u, rows ++ shop ∷ []) ∷ groups
    else if ltb_ℤ type_id u
    then (type_id, shop ∷ []) ∷ (u, rows) ∷ groups
    else (u, rows) ∷ later

unfoldable pub group_shops : List Row → Shelves → Shelves
unfolding insert_shop
group_shops [] groups = groups
group_shops (shop ∷ shops) groups = group_shops shops (insert_shop (type_of shop) shop groups)

-- The two handlers of loadShopData.
abbrev pub load_failure : {W A : Type 0} → Exception → Action W A
load_failure (drogon_db_exception m) = throw db_error (codes "DrogonDbException:" ++ m)
load_failure (redis_exception m) = throw cache_error (codes "RedisException:" ++ m)
load_failure e = raise e

module _ {Server Db : Type 0} (geo : Geo Server) (shops : Mapper Row Db) (d : Doubles) where
  unfoldable pub add_groups : Shelves → Action Server (Unit {0})
  add_groups [] = pure tt
  add_groups ((type_id, rows) ∷ groups) =
      let rest = add_groups groups in
      geo.geo_add (shop_geo_key type_id) (map (place_of d) rows) >>= λ n. rest

  unfoldable pub load_shop_data : Action (World Server Db) (Unit {0})
  unfolding group_shops add_groups
  load_shop_data =
      try_catch (do found ← at_db shops.find_all; at_server (add_groups (group_shops found [])))
        load_failure
