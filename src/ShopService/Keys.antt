-- ===== src/ShopService/Keys.antt =====
-- The keys and times of constants/RedisConstants for shops, and the id of a row of TbShop.
use project_collection.Base.{ℕ, Bool, ◌++◌, Option}
use project_collection.Base.Int.{ℤ}
use project_collection.Base.Text.{Text, codes, to_string}
use project_collection.Models.{is_number, number_of}
use project_collection.Orm.{Row}
use project_collection.Orm.Access.{number_column}

-- RedisConstants
abbrev pub cache_shop_key : ℤ → Text
cache_shop_key id = codes "cache:shop:" ++ to_string id

abbrev pub lock_shop_key : ℤ → Text
lock_shop_key id = codes "lock:shop:" ++ to_string id

abbrev pub origin_data_key : Text
origin_data_key = codes "OriginData"

abbrev pub cache_null_ttl : ℕ
cache_null_ttl = 120

abbrev pub cache_shop_ttl : ℕ
cache_shop_ttl = 30

abbrev pub lock_shop_ttl : ℕ
lock_shop_ttl = 10

-- The first column is the id.
abbrev pub id_column : Row → Option ℤ
id_column row = number_column 0 row

-- `TbShop::getValueOfId`
abbrev pub value_of_id : Row → ℤ
value_of_id row = number_of (id_column row)

-- `Criteria(TbShop::Cols::_id, CompareOperator::EQ, std::to_string(id))`
abbrev pub is_shop : ℤ → Row → Bool
is_shop id row = is_number (id_column row) id
