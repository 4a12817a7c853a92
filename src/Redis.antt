-- ===== src/Redis.antt =====
-- The Redis server behind Poco::Redis::Client, which Resource::getRedisInstance hands to the
-- services: a parameter of the model. `Redis` is the client's interface, and `IsRedis` states the
-- documented behaviour of the commands and of `execute<T>` that the services rely on.
pub mod Memory
use project_collection.Base.{
  ℕ, Bool, true, false, List, [], ◌∷◌, Option, none, some, ◌≡◌, ◌==◌, if◌then◌else◌,
}
use project_collection.Base.Int.{ℤ, pos}
use project_collection.Base.Text.{Text, codes, text_eq}
use project_collection.Common.{Outcome, ok, raised, Action, ◌>>=◌, redis_exception, std_exception}

-- `set key value overwrite seconds` adds NX without `overwrite`, and an expiry unless it is 0.
pub data Command : Type 0 where
  set : Text → Text → Bool → ℕ → Command
  get exists del hgetall : Text → Command
  expire : Text → ℕ → Command
  hget : Text → Text → Command
  hmset : Text → List (Text × Text) → Command

pub data Reply : Type 0 where
  simple : Text → Reply
  integer : ℤ → Reply
  bulk : Option Text → Reply
  array : List Text → Reply
  error : Text → Reply

pub data Content : Type 0 where
  string : Text → Content
  hash : List (Text × Text) → Content

-- What a key holds, and the seconds set for its expiry.
pub record Entry : Type 0 where
  pub content : Content
  pub expires : Option ℕ

abbrev pub Keys : Type 0
Keys = Text → Option Entry

pub record Redis (Server : Type 0) : Type 0 where
  pub send : Command → Action Server Reply
  pub read_int64 : Reply → Outcome ℤ
  pub read_string : Reply → Outcome Text
  pub read_bulk : Reply → Outcome (Option Text)
  pub read_array : Reply → Outcome (List Text)
  pub keys : Server → Keys

abbrev pub lift : {W A : Type 0} → Outcome A → Action W A
lift r w = (r, w)

-- `execute<T>(command)` for the four types that the program asks for.
module _ {Server : Type 0} (redis : Redis Server) where
  abbrev pub execute_int64 : Command → Action Server ℤ
  execute_int64 c = redis.send c >>= λ r. lift (redis.read_int64 r)

  abbrev pub execute_string : Command → Action Server Text
  execute_string c = redis.send c >>= λ r. lift (redis.read_string r)

  abbrev pub execute_bulk : Command → Action Server (Option Text)
  execute_bulk c = redis.send c >>= λ r. lift (redis.read_bulk r)

  abbrev pub execute_array : Command → Action Server (List Text)
  execute_array c = redis.send c >>= λ r. lift (redis.read_array r)

abbrev pub wrong_type : Text
wrong_type = codes "WRONGTYPE Operation against a key holding the wrong kind of value"

abbrev pub bad_cast : Text
bad_cast = codes "Bad cast exception"

abbrev pub put : Text → Option Entry → Keys → Keys
put k e m j = if text_eq k j then e else m j

abbrev expiry_of : ℕ → Option ℕ
expiry_of t = if t == 0 then none else some t

abbrev pub lookup : Text → List (Text × Text) → Option Text
lookup k [] = none
lookup k ((j, v) ∷ m) = if text_eq j k then some v else lookup k m

-- HMSET: each pair in turn replaces the field or is added.
abbrev pub insert : Text → Text → List (Text × Text) → List (Text × Text)
insert k v [] = (k, v) ∷ []
insert k v ((j, w) ∷ m) = if text_eq j k then (k, v) ∷ m else (j, w) ∷ insert k v m

abbrev pub insert_all : List (Text × Text) → List (Text × Text) → List (Text × Text)
insert_all [] m = m
insert_all ((k, v) ∷ ps) m = insert_all ps (insert k v m)

-- HGETALL lists the fields and values in turn.
abbrev pub flatten : List (Text × Text) → List Text
flatten [] = []
flatten ((k, v) ∷ m) = k ∷ v ∷ flatten m

-- The documented replies.
abbrev reply_set : Bool → Option Entry → Reply
reply_set false (some _) = bulk none
reply_set _ _ = simple (codes "OK")

abbrev reply_get : Option Entry → Reply
reply_get none = bulk none
reply_get (some e) = elim e.content [ string v ↦ bulk (some v) | hash _ ↦ error wrong_type ]

abbrev reply_count : Option Entry → Reply
reply_count none = integer (pos 0)
reply_count (some _) = integer (pos 1)

abbrev reply_hget : Text → Option Entry → Reply
reply_hget f none = bulk none
reply_hget f (some e) = elim e.content [ string _ ↦ error wrong_type | hash m ↦ bulk (lookup f m) ]

abbrev reply_hmset : Option Entry → Reply
reply_hmset none = simple (codes "OK")
reply_hmset (some e) = elim e.content [ string _ ↦ error wrong_type | hash _ ↦ simple (codes "OK") ]

abbrev reply_hgetall : Option Entry → Reply
reply_hgetall none = array []
reply_hgetall (some e) = elim e.content [ string _ ↦ error wrong_type | hash m ↦ array (flatten m) ]

abbrev pub reply : Keys → Command → Reply
reply m (set k v over t) = reply_set over (m k)
reply m (get k) = reply_get (m k)
reply m (exists k) = reply_count (m k)
reply m (del k) = reply_count (m k)
reply m (hgetall k) = reply_hgetall (m k)
reply m (expire k t) = reply_count (m k)
reply m (hget k f) = reply_hget f (m k)
reply m (hmset k ps) = reply_hmset (m k)

-- The documented effects on the keys.
abbrev after_set : Bool → Option Entry → Entry → Option Entry
after_set false (some old) e = some old
after_set _ _ e = some e

abbrev after_expire : ℕ → Option Entry → Option Entry
after_expire t none = none
after_expire t (some e) = some (record e { expires = some t })

abbrev after_hmset : List (Text × Text) → Option Entry → Option Entry
after_hmset ps none = some (record { content = hash (insert_all ps []); expires = none })
after_hmset ps (some e) = elim e.content [
  | string _ ↦ some e
  | hash m ↦ some (record e { content = hash (insert_all ps m) })
]

abbrev pub effect : Keys → Command → Keys
effect m (set k v over t) =
    put k (after_set over (m k) (record { content = string v; expires = expiry_of t })) m
effect m (del k) = put k none m
effect m (expire k t) = put k (after_expire t (m k)) m
effect m (hmset k ps) = put k (after_hmset ps (m k)) m
effect m _ = m

-- A server that answers, and a client that reads its replies as Poco documents: `execute<T>`
-- throws a `RedisException` for an error reply and a `BadCastException` for another type than `T`.
pub record IsRedis {Server : Type 0} (redis : Redis Server) : Type 0 where
  pub replies : (c : Command) (s : Server) → (redis.send c s).0 ≡ ok (reply (redis.keys s) c)
  pub effects :
      (c : Command) (s : Server) (j : Text)
      → redis.keys (redis.send c s).1 j ≡ effect (redis.keys s) c j
  pub int64_integer : (n : ℤ) → redis.read_int64 (integer n) ≡ ok n
  pub string_simple : (t : Text) → redis.read_string (simple t) ≡ ok t
  pub string_bulk : (o : Option Text) → redis.read_string (bulk o) ≡ raised (std_exception bad_cast)
  pub string_error : (m : Text) → redis.read_string (error m) ≡ raised (redis_exception m)
  pub bulk_bulk : (o : Option Text) → redis.read_bulk (bulk o) ≡ ok o
  pub bulk_simple : (t : Text) → redis.read_bulk (simple t) ≡ raised (std_exception bad_cast)
  pub bulk_error : (m : Text) → redis.read_bulk (error m) ≡ raised (redis_exception m)
  pub array_array : (xs : List Text) → redis.read_array (array xs) ≡ ok xs
  pub array_error : (m : Text) → redis.read_array (error m) ≡ raised (redis_exception m)
