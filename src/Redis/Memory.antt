-- ===== src/Redis/Memory.antt =====
-- A server that keeps its keys in memory: the documented behaviour can be met.
use project_collection.Base.{refl}
use project_collection.Base.{Option, List}
use project_collection.Base.Int.{ℤ}
use project_collection.Base.Text.{Text}
use project_collection.Common.{Outcome, ok, raised, redis_exception, std_exception}
use project_collection.Redis.{
  Redis, IsRedis, Keys, Reply, simple, integer, bulk, array, error, reply, effect, bad_cast,
}

abbrev as_int64 : Reply → Outcome ℤ
as_int64 (integer n) = ok n
as_int64 (error m) = raised (redis_exception m)
as_int64 _ = raised (std_exception bad_cast)

abbrev as_string : Reply → Outcome Text
as_string (simple t) = ok t
as_string (error m) = raised (redis_exception m)
as_string _ = raised (std_exception bad_cast)

abbrev as_bulk : Reply → Outcome (Option Text)
as_bulk (bulk o) = ok o
as_bulk (error m) = raised (redis_exception m)
as_bulk _ = raised (std_exception bad_cast)

abbrev as_array : Reply → Outcome (List Text)
as_array (array xs) = ok xs
as_array (error m) = raised (redis_exception m)
as_array _ = raised (std_exception bad_cast)

abbrev pub memory : Redis Keys
memory = record {
  send = λ c m. (ok (reply m c), effect m c);
  read_int64 = as_int64;
  read_string = as_string;
  read_bulk = as_bulk;
  read_array = as_array;
  keys = λ m. m;
}

pub memory-IsRedis : IsRedis memory
memory-IsRedis = record {
  replies = λ c s. refl;
  effects = λ c s j. refl;
  int64_integer = λ n. refl;
  string_simple = λ t. refl;
  string_bulk = λ o. refl;
  string_error = λ m. refl;
  bulk_bulk = λ o. refl;
  bulk_simple = λ t. refl;
  bulk_error = λ m. refl;
  array_array = λ xs. refl;
  array_error = λ m. refl;
}
