-- ===== src/ShopService/Search.antt =====
-- queryByType: the shops of a type, by pages, or around a place.
pub mod Pages
use project_collection.Base.{
  ℕ, zero, suc, ◌+◌, ◌-◌, ◌*◌, ◌/◌, ◌==◌, Bool, true, false, ◌||◌, ltb, leb, List, [], ◌∷◌, Option,
  some, none, length, get_elem?, if◌then◌else◌,
}
use project_collection.Base.Int.{ℤ, pos, negsuc, ◌+ℤ◌, ◌-ℤ◌, ltb_ℤ}
use project_collection.Base.Text.{Text, codes, atol}
use project_collection.Common.{
  Outcome, ok, raised, Action, pure, raise, ◌>>=◌, ◌>>◌, std_exception, Json, obj, get, is_member,
}
use project_collection.Redis.{bad_cast, lift}
use project_collection.Models.{is_number}
use project_collection.Database.{Mapper}
use project_collection.VoucherOrder.Backing.{World, at_server, at_db}
use project_collection.Orm.{Row}
use project_collection.Orm.Values.{Reads, bind, signed}
use project_collection.Orm.Access.{number_column}
use project_collection.ShopService.Places.{Doubles, Geo, shop_geo_key, load_shop_data}

-- The four members of the request; a coordinate is the 64 bits of a double.
pub record Search : Type 0 where
  pub type_id : ℤ
  pub current : ℤ
  pub x : ℕ
  pub y : ℕ

-- `isMember(name) ? value[name].asString() : default`
abbrev pub member_or : Reads → Text → Text → Json → Outcome Text
member_or r name missing (obj fs) =
    if is_member name fs then r.as_string (get name (obj fs)) else ok missing
member_or r name missing _ = ok missing

unfoldable pub search_of : Reads → Doubles → Json → Outcome Search
search_of r d j = bind (r.as_string (get (codes "typeId") j)) λ type_id.
    bind (member_or r (codes "current") (codes "0") j) λ current.
      bind (member_or r (codes "x") (codes "-1") j) λ x.
        bind (member_or r (codes "y") (codes "-1") j) λ y.
          ok (record { type_id = atol type_id; current = atol current; x = d.atof x; y = d.atof y })

-- The bits of -1.
abbrev pub minus_one : ℕ
minus_one = 13830554455654793216

-- DEFAULT_PAGE_SIZE
abbrev pub page_size : ℕ
page_size = 5

-- The number of the first shop of page n + 1.
abbrev pub pages : ℤ → ℤ
pages (pos n) = pos (n * page_size)
pages (negsuc n) = negsuc (suc n * page_size - 1)

abbrev pub to_int : ℤ → ℤ
to_int = signed 2147483648 4294967296

abbrev pub min : ℕ → ℕ → ℕ
min a b = if ltb a b then a else b

abbrev pub add_some : {A : Type 0} → Option A → List A → List A
add_some none xs = xs
add_some (some x) xs = x ∷ xs

-- The loop that copies the shops from an index on, for a number of rounds.
unfoldable pub copy_shops : ℕ → ℕ → List Row → List Row
copy_shops zero i shops = []
copy_shops (suc rounds) i shops = add_some (get_elem? shops i) (copy_shops rounds (suc i) shops)

-- A negative index is undefined behaviour, which is none here.
unfoldable pub page_from : ℤ → List Row → Option (List Row)
unfolding copy_shops
page_from (pos i) shops = some (copy_shops (min (length shops) page_size - i) i shops)
page_from (negsuc i) shops = none

-- `result.get<BulkString>(i)`: the elements are arrays.
abbrev pub bulk_at : {W : Type 0} → List (Text × Text) → ℤ → Action W Text
bulk_at found (pos i) =
    if ltb i (length found)
    then raise (std_exception bad_cast)
    else raise (std_exception (codes "Invalid argument"))
bulk_at found (negsuc i) = raise (std_exception (codes "Invalid argument"))

-- The loop over the page: an id and a distance in each round.
unfoldable pub take_ids : {W : Type 0} → ℕ → ℤ → List (Text × Text) → Action W (Unit {0})
take_ids zero i found = pure tt
take_ids (suc rounds) i found = bulk_at found i >>= λ id.
    bulk_at found (i +ℤ pos 1) >>= λ distance. take_ids rounds (i +ℤ pos 1) found

-- `result.size() / 2 <= from`: a negative `from` is a large number there.
abbrev pub is_past : List (Text × Text) → ℤ → Bool
is_past found (pos i) = leb (length found / 2) i
is_past found (negsuc i) = true

abbrev pub rounds_of : ℤ → ℕ
rounds_of (pos n) = n
rounds_of (negsuc n) = 0

module _ {Server Db : Type 0} (geo : Geo Server) (shops : Mapper Row Db) (reads : Reads)
    (d : Doubles) where
  -- Without a place: a page of what the database has.
  unfoldable pub by_page : Search → Action (World Server Db) (Option (List Row))
  unfolding page_from
  by_page s = do
    found ← at_db (shops.find_by (λ row. is_number (number_column 2 row) s.type_id))
    pure (page_from (to_int s.current) found)

  -- Around a place: the ids and distances are read, and nothing is returned.
  unfoldable pub by_place : Search → Action (World Server Db) (Option (List Row))
  unfolding take_ids
  by_place s = do
    let from = to_int (pages (s.current -ℤ pos 1))
    let end = to_int (pages s.current)
    found ← at_server (geo.geo_search (shop_geo_key s.type_id) (d.print s.x) (d.print s.y))
    (if (length found == 0) || is_past found from
        then pure (some [])
        else (do take_ids (rounds_of (end -ℤ from)) from found; pure (some [])))

  unfoldable pub query_by_type : Json → Action (World Server Db) (Option (List Row))
  unfolding search_of load_shop_data by_page by_place
  query_by_type j = do
    s ← lift (search_of reads d j)
    load_shop_data geo shops d
    (if (s.x == minus_one) || (s.y == minus_one) then by_page s else by_place s)
