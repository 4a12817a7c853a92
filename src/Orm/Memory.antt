-- ===== src/Orm/Memory.antt =====
-- Conversions and tests of JSON values that meet what the classes rely on, and a calendar that counts
-- in seconds.
use project_collection.Base.{
  ℕ, ◌/◌, [], ◌≤◌, ◌≡◌, refl, Bool, true, false, ltb, leb, some, arith, if◌then◌else◌,
}
use project_collection.Base.Int.{ℤ, pos, negsuc}
use project_collection.Base.Text.{Text, codes, digits, to_string, atol}
use project_collection.Common.{
  Outcome, ok, raised, std_exception, Json, null, boolean, int, real, str,
}
use project_collection.Orm.Values.{Reads}
use project_collection.Orm.Laws.{Between, IsReads}

-- From -low to high.
abbrev within : ℕ → ℕ → ℤ → Bool
within low high (pos n) = leb n high
within low high (negsuc n) = ltb n low

abbrev is_int_within : ℕ → ℕ → Json → Bool
is_int_within low high (int z) = within low high z
is_int_within low high _ = false

abbrev int_within : ℕ → ℕ → Json → Outcome ℤ
int_within low high (int z) =
    if within low high z then ok z else raised (std_exception (codes "out of range"))
int_within low high _ = raised (std_exception (codes "not a number"))

abbrev text_of : Json → Outcome Text
text_of null = ok []
text_of (boolean true) = ok (codes "true")
text_of (boolean false) = ok (codes "false")
text_of (int z) = ok (to_string z)
text_of (real b) = ok (digits b)
text_of (str s) = ok s
text_of _ = raised (std_exception (codes "not a text"))

abbrev is_text : Json → Bool
is_text (str s) = true
is_text _ = false

abbrev bits_of : Json → Outcome ℕ
bits_of (real b) = ok b
bits_of _ = raised (std_exception (codes "not a double"))

abbrev is_real : Json → Bool
is_real (real b) = true
is_real _ = false

abbrev print_micros : ℤ → Text
print_micros (pos n) = digits (n / 1000000)
print_micros (negsuc n) = codes "past"

abbrev pub plain : Reads
plain = record {
  as_uint64 = int_within 0 18446744073709551615;
  as_int64 = int_within 9223372036854775808 9223372036854775807;
  as_string = text_of;
  as_double = bits_of;
  is_uint64 = is_int_within 0 18446744073709551615;
  is_int64 = is_int_within 9223372036854775808 9223372036854775807;
  is_uint = is_int_within 0 4294967295;
  is_int = is_int_within 2147483648 2147483647;
  is_string = is_text;
  is_numeric = is_real;
  scan_time = λ s. some (atol s, []);
  scan_day = atol;
  print_date = print_micros;
}

fits : (low high : ℕ) (z : ℤ) → within low high z ≡ true → int_within low high (int z) ≡ ok z
fits low high z h = rw h refl

uint64_within :
    (z : ℤ) → Between (pos 0) (pos 18446744073709551615) z → within 0 18446744073709551615 z ≡ true
uint64_within (pos n) h = ground arith
uint64_within (negsuc n) h = ground arith

int64_within :
    (z : ℤ)
    → Between (negsuc 9223372036854775807) (pos 9223372036854775807) z
    → within 9223372036854775808 9223372036854775807 z ≡ true
int64_within (pos n) h = ground arith
int64_within (negsuc n) h = ground arith

uint_within : (z : ℤ) → Between (pos 0) (pos 4294967295) z → within 0 4294967295 z ≡ true
uint_within (pos n) h = ground arith
uint_within (negsuc n) h = ground arith

within_wide :
    (low high wide_low wide_high : ℕ) (z : ℤ)
    → low ≤ wide_low
    → high ≤ wide_high
    → within low high z ≡ true
    → within wide_low wide_high z ≡ true
within_wide low high wide_low wide_high (pos n) l h t = ground arith
within_wide low high wide_low wide_high (negsuc n) l h t = ground arith

-- What passes a narrow test converts to a wider type.
bounded :
    (low high wide_low wide_high : ℕ) (j : Json)
    → low ≤ wide_low
    → high ≤ wide_high
    → is_int_within low high j ≡ true
    → (z : ℤ) × (within low high z ≡ true) × (int_within wide_low wide_high j ≡ ok z)
bounded low high wide_low wide_high (int z) l h t =
    (z, t, fits wide_low wide_high z (within_wide low high wide_low wide_high z l h t))
bounded low high wide_low wide_high _ l h t = absurd (let clash : false ≡ true = t in cc)

uint64_of :
    (z : ℤ) → within 0 18446744073709551615 z ≡ true → Between (pos 0) (pos 18446744073709551615) z
uint64_of (pos n) h = ground arith
uint64_of (negsuc n) h = ground arith

int64_of :
    (z : ℤ)
    → within 9223372036854775808 9223372036854775807 z ≡ true
    → Between (negsuc 9223372036854775807) (pos 9223372036854775807) z
int64_of (pos n) h = ground arith
int64_of (negsuc n) h = ground arith

uint_of : (z : ℤ) → within 0 4294967295 z ≡ true → Between (pos 0) (pos 4294967295) z
uint_of (pos n) h = ground arith
uint_of (negsuc n) h = ground arith

int_of :
    (z : ℤ) → within 2147483648 2147483647 z ≡ true → Between (negsuc 2147483647) (pos 2147483647) z
int_of (pos n) h = ground arith
int_of (negsuc n) h = ground arith

text_test : (j : Json) → is_text j ≡ true → (s : Text) × (j ≡ str s)
text_test (str s) h = (s, refl)
text_test _ h = absurd (let clash : false ≡ true = h in cc)

real_test : (j : Json) → is_real j ≡ true → (b : ℕ) × (bits_of j ≡ ok b)
real_test (real b) h = (b, refl)
real_test _ h = absurd (let clash : false ≡ true = h in cc)

pub plain-IsReads : IsReads plain
plain-IsReads = record {
  uint64_int = λ z h. fits 0 18446744073709551615 z (uint64_within z h);
  int64_int = λ z h. fits 9223372036854775808 9223372036854775807 z (int64_within z h);
  string_str = λ s. refl;
  double_real = λ b. refl;
  uint_int = uint_within;
  uint64_test = λ j t.
      let (z, inside, got) =
        bounded 0 18446744073709551615 0 18446744073709551615 j (omega arith) (omega arith) t in
      (z, uint64_of z inside, got);
  int64_test = λ j t.
      let (z, inside, got) =
        bounded 9223372036854775808 9223372036854775807 9223372036854775808 9223372036854775807 j
          (omega arith) (omega arith) t in
      (z, int64_of z inside, got);
  uint_test = λ j t.
      let (z, inside, got) =
        bounded 0 4294967295 0 18446744073709551615 j (omega arith) (omega arith) t in
      (z, uint_of z inside, got);
  int_test = λ j t.
      let (z, inside, got) =
        bounded 2147483648 2147483647 9223372036854775808 9223372036854775807 j (omega arith)
          (omega arith) t in
      (z, int_of z inside, got);
  string_test = text_test;
  numeric_test = real_test;
}
