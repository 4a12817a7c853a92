-- ===== src/Orm/Validated.antt =====
-- What the validation for a creation guarantees of the constructor, and what it lets through.
use project_collection.Base.{
  ℕ, ◌≤◌, ◌%◌, ◌≡◌, ◌≢◌, refl, ap, Bool, true, false, ◌&&◌, ltb, List, [], ◌∷◌, Option, none, some,
  arith, length, if◌then◌else◌, Bool-cases, inl, inr,
}
use project_collection.Base.Int.{ℤ, pos, negsuc}
use project_collection.Base.Text.{Text}
use project_collection.Common.{ok, Json, int, str, Fields, member, is_member}
use project_collection.Orm.{Column, Field, Row, unset, is_null, keep, read_member, of_json}
use project_collection.Orm.Values.{
  Value, number, string, bits, date, Kind, uint64, int64, uint32, int32, uint8, int8, text, double,
  timestamp, day, Reads, read_value, read_time, dated, in_micros, has_type, unsigned, signed,
}
use project_collection.Orm.Validation.{
  is_too_long, null_message, or_else, valid_json_of_field, validate_json_for_creation,
}
use project_collection.Orm.Laws.{
  IsReads, IsUint64, IsInt64, IsUint32, IsInt32, IsUint8, IsInt8, unsigned_32, signed_32,
}

abbrev pub InBounds : ℕ → Kind → Value → Type 0
InBounds size uint64 (number z) = IsUint64 z
InBounds size int64 (number z) = IsInt64 z
InBounds size uint32 (number z) = IsUint32 z
InBounds size int32 (number z) = IsInt32 z
InBounds size uint8 (number z) = IsUint8 z
InBounds size int8 (number z) = IsInt8 z
InBounds size text (string s) = (ltb 0 size ≡ true) → length s ≤ size
InBounds size double (bits b) = Unit
InBounds size timestamp (date t) = Unit
InBounds size day (date t) = Unit
InBounds size _ _ = ⊥

abbrev pub HasBounds : ℕ → Kind → Option Value → Type 0
HasBounds size kind none = Unit
HasBounds size kind (some v) = InBounds size kind v

abbrev pub is_time : Kind → Bool
is_time timestamp = true
is_time _ = false

residue_8 : (z : ℤ) → IsUint8 (unsigned 256 z)
residue_8 (pos n) = (omega arith, omega arith)
residue_8 (negsuc n) = (omega arith, omega arith)

wrapped_8 : (z : ℤ) → IsInt8 (signed 128 256 z)
wrapped_8 (pos n) = ground arith
wrapped_8 (negsuc n) = ground arith

pub keep-none : (o : Option Value) → keep o none ≡ o
keep-none none = refl
keep-none (some v) = refl

pub or_else-none : (x rest : Option Text) → or_else x rest ≡ none → (x ≡ none) × (rest ≡ none)
or_else-none none rest h = (refl, h)
or_else-none (some e) rest h = absurd (let clash : some e ≡ none = h in cc)

time_bounds : (size : ℕ) (o : Option ℤ) → HasBounds size timestamp (dated o)
time_bounds size none = tt
time_bounds size (some t) = tt

within :
    (c : Column) (s : Text)
    → c.kind ≡ text
    → ltb 0 c.size ≡ true
    → is_too_long c (str s) ≡ false
    → length s ≤ c.size
within c s k limited h =
    let short : ltb c.size (length s) ≡ false = rw (k, limited) at h in ground arith

-- What a new row must have cannot be null.
abbrev pub IsProper : List Column → Type 0
IsProper [] = Unit
IsProper (c ∷ cs) = (c.required ≡ true → c.not_null ≡ true) × IsProper cs

module _ (r : Reads) (laws : IsReads r) where
  -- What a member of the tested type is read as.
  pub stored :
      (c : Column) (kind : Kind) (j : Json)
      → c.kind ≡ kind
      → has_type r kind j ≡ true
      → is_too_long c j ≡ false
      → (o : Option Value) × (read_value r kind j ≡ ok o)
        × HasBounds c.size kind o
        × ((o ≡ none) → is_time kind ≡ true)
  unfolding has_type read_value
  stored c uint64 j k t l =
      let (z, range, got) = laws.uint64_test j t in (some (number z), rw got refl, range, λ e. cc)
  stored c int64 j k t l =
      let (z, range, got) = laws.int64_test j t in (some (number z), rw got refl, range, λ e. cc)
  stored c uint32 j k t l =
      let (z, range, got) = laws.uint_test j t in
      (some (number z), rw (got, unsigned_32 z range) refl, range, λ e. cc)
  stored c int32 j k t l =
      let (z, range, got) = laws.int_test j t in
      (some (number z), rw (got, signed_32 z range) refl, range, λ e. cc)
  stored c uint8 j k t l =
      let (z, range, got) = laws.uint_test j t in
      (some (number (unsigned 256 z)), rw got refl, residue_8 z, λ e. cc)
  stored c int8 j k t l =
      let (z, range, got) = laws.int_test j t in
      (some (number (signed 128 256 z)), rw got refl, wrapped_8 z, λ e. cc)
  stored c text j k t l =
      let (s, same) = laws.string_test j t in
      (
        some (string s),
        rw (same, laws.string_str s) refl,
        (λ limited. within c s k limited (rw same at l)),
        λ e. cc,
      )
  stored c double j k t l =
      let (b, got) = laws.numeric_test j t in (some (bits b), rw got refl, tt, λ e. cc)
  stored c timestamp j k t l =
      let (s, same) = laws.string_test j t in
      (
        dated (read_time r s),
        rw (same, laws.string_str s) refl,
        time_bounds c.size (read_time r s),
        λ e. refl,
      )
  stored c day j k t l =
      let (s, same) = laws.string_test j t in
      (some (date (in_micros (r.scan_day s))), rw (same, laws.string_str s) refl, tt, λ e. cc)

  -- A field of a row that was validated: what is set lies within the bounds of its column, and what
  -- the column requires is set, or is a time that could not be read.
  abbrev pub IsSound : Column → Field → Type 0
  IsSound c f =
      HasBounds c.size c.kind f.value
      × ((f.value ≡ none) → c.required ≡ true → is_time c.kind ≡ true)

  member-IsSound :
      (c : Column) (name : Text) (j : Json)
      → (c.required ≡ true → c.not_null ≡ true)
      → valid_json_of_field r c name j true ≡ none
      → (f : Field) × (read_member r c.kind j unset ≡ ok f) × IsSound c f
  unfolding valid_json_of_field read_member
  member-IsSound c name j proper valid = elim (Bool-cases (is_null j)) [
    | inl null_here ↦ (
      record unset { dirty = true },
      rw null_here refl,
      (
        tt,
        λ e required.
            let must = proper required in let refused = rw (null_here, must) at valid in cc,
      ),
    )
    | inr filled ↦ elim (Bool-cases (c.is_auto && true)) [
      | inl auto ↦ (let refused = rw (filled, auto) at valid in cc)
      | inr free ↦ elim (Bool-cases (has_type r c.kind j)) [
        | inr other ↦ (let refused = rw (filled, free, other) at valid in cc)
        | inl typed ↦ elim (Bool-cases (is_too_long c j)) [
          | inl long ↦ (let refused = rw (filled, free, typed, long) at valid in cc)
          | inr short ↦
              let (o, got, bounds, late) = stored c c.kind j refl typed short in
              (
                record { value = o; dirty = true },
                rw (filled, got) (ap (λ v. ok (record { value = v; dirty = true })) (keep-none o)),
                (bounds, λ e required. late e),
              )
        ]
      ]
    ]
  ]

  abbrev pub AreSound : List Column → Row → Type 0
  AreSound [] [] = Unit
  AreSound (c ∷ cs) (f ∷ row) = IsSound c f × AreSound cs row
  AreSound _ _ = ⊥

  column-IsSound :
      (c : Column) (fs : Fields)
      → (c.required ≡ true → c.not_null ≡ true)
      → (if is_member c.name fs
          then valid_json_of_field r c c.name (member c.name fs) true
          else if c.required
          then some (null_message c.name)
          else none)
        ≡ none
      → (f : Field) × ((if is_member c.name fs
            then read_member r c.kind (member c.name fs) unset
            else ok unset)
          ≡ ok f)
        × IsSound c f
  column-IsSound c fs proper valid = elim (Bool-cases (is_member c.name fs)) [
    | inl there ↦
        let (f, got, sound) =
          member-IsSound c c.name (member c.name fs) proper (rw there at valid) in
        (f, rw there got, sound)
    | inr absent ↦ elim (Bool-cases c.required) [
      | inl must ↦ (let refused = rw (absent, must) at valid in cc)
      | inr free ↦ (unset, rw absent refl, (tt, λ e must. cc))
    ]
  ]

  -- A JSON object that passes the validation for a creation is taken by the constructor without an
  -- exception; what is set in the row lies within the bounds of its column, and every required column
  -- is set, but for times that could not be read.
  pub of_json-validated :
      (columns : List Column) (fs : Fields)
      → IsProper columns
      → validate_json_for_creation r columns fs ≡ none
      → (row : Row) × (of_json r columns fs ≡ ok row) × AreSound columns row
  unfolding validate_json_for_creation of_json
  of_json-validated [] fs proper valid = ([], refl, tt)
  of_json-validated (c ∷ cs) fs proper valid =
      let (first, later) = or_else-none _ _ valid in
      let (f, got, sound) = column-IsSound c fs proper.0 first in
      let (row, rest, all_sound) = of_json-validated cs fs proper.1 later in
      (f ∷ row, rw (got, rest) refl, (sound, all_sound))

  -- A number of a `tinyint unsigned` column between 256 and 2^32 - 1 passes the validation, and the
  -- constructor stores it modulo 256.
  pub tinyint_truncated :
      (c : Column) (name : Text) (n : ℕ)
      → c.kind ≡ uint8
      → c.is_auto ≡ false
      → 256 ≤ n
      → n ≤ 4294967295
      → (valid_json_of_field r c name (int (pos n)) true ≡ none)
        × (read_member r c.kind (int (pos n)) unset
            ≡ ok (record { value = some (number (pos (n % 256))); dirty = true }))
        × (n % 256 ≢ n)
  unfolding valid_json_of_field has_type read_member read_value
  tinyint_truncated c name n k auto low high = (
    rw (auto, k, laws.uint_int (pos n) (omega arith, omega arith)) refl,
    rw (k, laws.uint64_int (pos n) (omega arith, omega arith)) refl,
    λ e. omega (arith, e),
  )
