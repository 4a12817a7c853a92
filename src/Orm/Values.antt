-- ===== src/Orm/Values.antt =====
-- The values of a column: how a class reads one from JSON and prints it.
use project_collection.Base.{
  ℕ, suc, ◌-◌, ◌*◌, ◌%◌, ◌==◌, Bool, ltb, [], ◌∷◌, ◌++◌, Option, none, some, replicate, length,
  if◌then◌else◌,
}
use project_collection.Base.Int.{ℤ, pos, negsuc, ◌+ℤ◌}
use project_collection.Base.Text.{Text, atol}
use project_collection.Common.{Outcome, ok, raised, Json, null, int, real, str}

-- The C++ type of a member, and for dates the SQL type.
pub data Kind : Type 0 where
  uint64 int64 uint32 int32 uint8 int8 text double timestamp day : Kind

-- A date is in microseconds; a double is its 64 bits.
pub data Value : Type 0 where
  number : ℤ → Value
  string : Text → Value
  bits : ℕ → Value
  date : ℤ → Value

-- The conversions and tests of `Json::Value`, `strptime` with `mktime` for a time and for a day, and
-- `toDbStringLocal`. A time is in seconds, with the text behind it.
pub record Reads : Type 0 where
  pub as_uint64 : Json → Outcome ℤ
  pub as_int64 : Json → Outcome ℤ
  pub as_string : Json → Outcome Text
  pub as_double : Json → Outcome ℕ
  pub is_uint64 : Json → Bool
  pub is_int64 : Json → Bool
  pub is_uint : Json → Bool
  pub is_int : Json → Bool
  pub is_string : Json → Bool
  pub is_numeric : Json → Bool
  pub scan_time : Text → Option (ℤ × Text)
  pub scan_day : Text → ℤ
  pub print_date : ℤ → Text

abbrev pub bind : {A B : Type 0} → Outcome A → (A → Outcome B) → Outcome B
bind (ok a) f = f a
bind (raised e) f = raised e

-- A conversion to w bits, without and with a sign: 2^w is given.
abbrev pub residue : ℕ → ℤ → ℕ
residue m (pos n) = n % m
residue m (negsuc n) = m - 1 - n % m

abbrev pub unsigned : ℕ → ℤ → ℤ
unsigned m z = pos (residue m z)

abbrev sign_at : ℕ → ℕ → ℕ → ℤ
sign_at half m r = if ltb r half then pos r else negsuc (m - 1 - r)

abbrev pub signed : ℕ → ℕ → ℤ → ℤ
signed half m z = sign_at half m (residue m z)

-- The digits behind the point, filled up to six.
abbrev pad : ℕ → Text
pad n = replicate (6 - n) b'0'

abbrev fraction : Text → ℤ
fraction [] = pos 0
fraction (c ∷ s) = if c == b'.' then atol (s ++ pad (length s)) else pos 0

abbrev pub in_micros : ℤ → ℤ
in_micros (pos n) = pos (n * 1000000)
in_micros (negsuc n) = negsuc (suc n * 1000000 - 1)

abbrev time_of : Option (ℤ × Text) → Option ℤ
time_of none = none
time_of (some (seconds, rest)) = some (in_micros seconds +ℤ fraction rest)

abbrev pub dated : Option ℤ → Option Value
dated none = none
dated (some t) = some (date t)

-- A time that `strptime` does not take leaves the member unset.
unfoldable pub read_time : Reads → Text → Option ℤ
unfolding ◌+ℤ◌
read_time r s = time_of (r.scan_time s)

-- `std::make_shared<T>(pJson[…].as…())`
unfoldable pub read_value : Reads → Kind → Json → Outcome (Option Value)
read_value r uint64 j = bind (r.as_uint64 j) λ n. ok (some (number n))
read_value r int64 j = bind (r.as_int64 j) λ n. ok (some (number n))
read_value r uint32 j = bind (r.as_uint64 j) λ n. ok (some (number (unsigned 4294967296 n)))
read_value r int32 j = bind (r.as_int64 j) λ n. ok (some (number (signed 2147483648 4294967296 n)))
read_value r uint8 j = bind (r.as_uint64 j) λ n. ok (some (number (unsigned 256 n)))
read_value r int8 j = bind (r.as_int64 j) λ n. ok (some (number (signed 128 256 n)))
read_value r text j = bind (r.as_string j) λ s. ok (some (string s))
read_value r double j = bind (r.as_double j) λ b. ok (some (bits b))
read_value r timestamp j = bind (r.as_string j) λ s. ok (dated (read_time r s))
read_value r day j = bind (r.as_string j) λ s. ok (some (date (in_micros (r.scan_day s))))

-- `ret["…"] = …`
unfoldable pub json_of_value : Reads → Option Value → Json
json_of_value r none = null
json_of_value r (some (number n)) = int n
json_of_value r (some (string s)) = str s
json_of_value r (some (bits b)) = real b
json_of_value r (some (date t)) = str (r.print_date t)

-- The test of the type in `validJsonOfField`.
unfoldable pub has_type : Reads → Kind → Json → Bool
has_type r uint64 j = r.is_uint64 j
has_type r int64 j = r.is_int64 j
has_type r uint32 j = r.is_uint j
has_type r int32 j = r.is_int j
has_type r uint8 j = r.is_uint j
has_type r int8 j = r.is_int j
has_type r text j = r.is_string j
has_type r double j = r.is_numeric j
has_type r timestamp j = r.is_string j
has_type r day j = r.is_string j
