-- ===== src/Orm/Laws.antt =====
-- What the classes rely on of jsoncpp's conversions and tests, and the ranges of the C++ types.
use project_collection.Base.{ℕ, ◌%◌, ◌≡◌, refl, true, some, arith}
use project_collection.Base.Int.{ℤ, pos, negsuc, ◌≤ℤ◌}
use project_collection.Base.Text.{Text}
use project_collection.Common.{ok, Json, int, real, str}
use project_collection.Orm.Values.{
  Value, number, string, bits, date, Kind, uint64, int64, uint32, int32, uint8, int8, text, double,
  timestamp, day, Reads, read_time, in_micros, unsigned, signed,
}

abbrev pub Between : ℤ → ℤ → ℤ → Type 0
Between low high z = (low ≤ℤ z) × (z ≤ℤ high)

abbrev pub IsUint64 : ℤ → Type 0
IsUint64 = Between (pos 0) (pos 18446744073709551615)

abbrev pub IsInt64 : ℤ → Type 0
IsInt64 = Between (negsuc 9223372036854775807) (pos 9223372036854775807)

abbrev pub IsUint32 : ℤ → Type 0
IsUint32 = Between (pos 0) (pos 4294967295)

abbrev pub IsInt32 : ℤ → Type 0
IsInt32 = Between (negsuc 2147483647) (pos 2147483647)

abbrev pub IsUint8 : ℤ → Type 0
IsUint8 = Between (pos 0) (pos 255)

abbrev pub IsInt8 : ℤ → Type 0
IsInt8 = Between (negsuc 127) (pos 127)

-- A number in range converts to itself; a test that holds says that the conversion succeeds, and
-- within the range that it is named for.
pub record IsReads (r : Reads) : Type 0 where
  pub uint64_int : (z : ℤ) → IsUint64 z → r.as_uint64 (int z) ≡ ok z
  pub int64_int : (z : ℤ) → IsInt64 z → r.as_int64 (int z) ≡ ok z
  pub string_str : (s : Text) → r.as_string (str s) ≡ ok s
  pub double_real : (b : ℕ) → r.as_double (real b) ≡ ok b
  pub uint_int : (z : ℤ) → IsUint32 z → r.is_uint (int z) ≡ true
  pub uint64_test :
      (j : Json) → r.is_uint64 j ≡ true → (z : ℤ) × IsUint64 z × (r.as_uint64 j ≡ ok z)
  pub int64_test : (j : Json) → r.is_int64 j ≡ true → (z : ℤ) × IsInt64 z × (r.as_int64 j ≡ ok z)
  pub uint_test : (j : Json) → r.is_uint j ≡ true → (z : ℤ) × IsUint32 z × (r.as_uint64 j ≡ ok z)
  pub int_test : (j : Json) → r.is_int j ≡ true → (z : ℤ) × IsInt32 z × (r.as_int64 j ≡ ok z)
  pub string_test : (j : Json) → r.is_string j ≡ true → (s : Text) × (j ≡ str s)
  pub numeric_test : (j : Json) → r.is_numeric j ≡ true → (b : ℕ) × (r.as_double j ≡ ok b)

-- The values that a member of a kind can have, and for a date that its text reads back.
abbrev pub InRange : Reads → Kind → Value → Type 0
InRange r uint64 (number z) = IsUint64 z
InRange r int64 (number z) = IsInt64 z
InRange r uint32 (number z) = IsUint32 z
InRange r int32 (number z) = IsInt32 z
InRange r uint8 (number z) = IsUint8 z
InRange r int8 (number z) = IsInt8 z
InRange r text (string s) = Unit
InRange r double (bits b) = Unit
InRange r timestamp (date t) = read_time r (r.print_date t) ≡ some t
InRange r day (date t) = in_micros (r.scan_day (r.print_date t)) ≡ t
InRange r _ _ = ⊥

pub unsigned_32 : (z : ℤ) → IsUint32 z → unsigned 4294967296 z ≡ z
unsigned_32 (pos n) h = let small : n % 4294967296 ≡ n = omega arith in rw small refl
unsigned_32 (negsuc n) h = absurd (omega arith)

pub unsigned_8 : (z : ℤ) → IsUint8 z → unsigned 256 z ≡ z
unsigned_8 (pos n) h = let small : n % 256 ≡ n = omega arith in rw small refl
unsigned_8 (negsuc n) h = absurd (omega arith)

pub signed_32 : (z : ℤ) → IsInt32 z → signed 2147483648 4294967296 z ≡ z
signed_32 (pos n) h = ground arith
signed_32 (negsuc n) h = ground arith

pub signed_8 : (z : ℤ) → IsInt8 z → signed 128 256 z ≡ z
signed_8 (pos n) h = ground arith
signed_8 (negsuc n) h = ground arith

pub Int32-Int64 : (z : ℤ) → IsInt32 z → IsInt64 z
Int32-Int64 z h = (omega arith, omega arith)

pub Int8-Int64 : (z : ℤ) → IsInt8 z → IsInt64 z
Int8-Int64 z h = (omega arith, omega arith)
