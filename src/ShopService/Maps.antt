-- ===== src/ShopService/Maps.antt =====
-- The map that a shop is cached as: its own text stands under the key of the original data.
use project_collection.Base.{
  ◌≡◌, refl, ap, Bool, true, false, List, [], ◌∷◌, ◌++◌, Option, some, none, Bool-cases, inl, inr,
  if◌then◌else◌,
}
use project_collection.Base.Text.{Text, text_eq, text_eq_refl, text_eq_sound}
use project_collection.Common.{
  ok, Json, str, arr, obj, Fields, end, field, is_member, set_member, member,
}
use project_collection.Redis.{lookup, insert, insert_all}
use project_collection.Orm.{Column, Row, of_json, to_json}
use project_collection.Orm.Values.{Value, number, string, bits, date, Reads, json_of_value}
use project_collection.Orm.Laws.{IsReads}
use project_collection.ShopService.Texts.{convert_json_to_map}

-- A value that is neither an array nor an object.
abbrev pub IsScalar : Json → Type 0
IsScalar (arr js) = ⊥
IsScalar (obj fs) = ⊥
IsScalar _ = Unit

-- `asString` of jsoncpp takes null, numbers, Booleans and texts.
pub record IsTexts (r : Reads) : Type 0 where
  pub text_of : (j : Json) → IsScalar j → (t : Text) × (r.as_string j ≡ ok t)

abbrev pub AreScalars : Fields → Type 0
AreScalars end = Unit
AreScalars (field k v fs) = IsScalar v × AreScalars fs

json_of_value-IsScalar : (r : Reads) (o : Option Value) → IsScalar (json_of_value r o)
unfolding json_of_value
json_of_value-IsScalar r none = tt
json_of_value-IsScalar r (some (number z)) = tt
json_of_value-IsScalar r (some (string s)) = tt
json_of_value-IsScalar r (some (bits b)) = tt
json_of_value-IsScalar r (some (date t)) = tt

pub to_json-AreScalars : (r : Reads) (cs : List Column) (row : Row) → AreScalars (to_json r cs row)
unfolding to_json
to_json-AreScalars r [] row = tt
to_json-AreScalars r (c ∷ cs) [] = tt
to_json-AreScalars r (c ∷ cs) (f ∷ row) =
    (json_of_value-IsScalar r f.value, to_json-AreScalars r cs row)

-- No column has this name.
abbrev pub Lacks : Text → List Column → Type 0
Lacks k [] = Unit
Lacks k (c ∷ cs) = (text_eq c.name k ≡ false) × Lacks k cs

pub is_member-to_json :
    (r : Reads) (k : Text) (cs : List Column) (row : Row)
    → Lacks k cs
    → is_member k (to_json r cs row) ≡ false
unfolding to_json is_member
is_member-to_json r k [] row lacks = refl
is_member-to_json r k (c ∷ cs) [] lacks = refl
is_member-to_json r k (c ∷ cs) (f ∷ row) lacks =
    rw (lacks.0, is_member-to_json r k cs row lacks.1) refl

pub convert_json_to_map-set_member :
    (r : Reads) (k t : Text) (fs : Fields)
    → IsReads r
    → IsTexts r
    → is_member k fs ≡ false
    → AreScalars fs
    → (m : List (Text × Text)) × (convert_json_to_map r fs ≡ ok m)
      × (convert_json_to_map r (set_member k (str t) fs) ≡ ok (m ++ (k, t) ∷ []))
unfolding convert_json_to_map set_member is_member
convert_json_to_map-set_member r k t end laws texts new scalars =
    ([], refl, rw (laws.string_str t) refl)
convert_json_to_map-set_member r k t (field j v fs) laws texts new scalars =
    elim (Bool-cases (text_eq j k)) [
      | inl same ↦ (let clash = rw same at new in cc)
      | inr other ↦
          let (s, read) = texts.text_of v scalars.0 in
          let (m, whole, rest) =
            convert_json_to_map-set_member r k t fs laws texts (rw other at new) scalars.1 in
          ((j, s) ∷ m, rw (read, whole) refl, rw (other, read, rest) refl)
    ]

-- One pair of an insertion, by whether its key is the same.
lookup_pair :
    (k v j w : Text) (m q : List (Text × Text)) (same : Bool)
    → text_eq j k ≡ same
    → lookup k q ≡ some v
    → lookup k (if same then (k, v) ∷ m else (j, w) ∷ q) ≡ some v
lookup_pair k v j w m q true e h = rw (text_eq_refl k) refl
lookup_pair k v j w m q false e h = rw e h

lookup-insert : (k v : Text) (m : List (Text × Text)) → lookup k (insert k v m) ≡ some v
lookup-insert k v [] = rw (text_eq_refl k) refl
lookup-insert k v ((j, w) ∷ m) =
    lookup_pair k v j w m (insert k v m) (text_eq j k) refl (lookup-insert k v m)

insert_all-++ :
    (xs ys m : List (Text × Text)) → insert_all (xs ++ ys) m ≡ insert_all ys (insert_all xs m)
insert_all-++ [] ys m = refl
insert_all-++ ((k, v) ∷ xs) ys m = insert_all-++ xs ys (insert k v m)

-- The last pair is found.
pub lookup-insert_all :
    (k v : Text) (xs m : List (Text × Text)) → lookup k (insert_all (xs ++ (k, v) ∷ []) m) ≡ some v
lookup-insert_all k v xs m =
    rw (insert_all-++ xs ((k, v) ∷ []) m) (lookup-insert k v (insert_all xs m))

lookup-insert_other :
    (k j v : Text) (m : List (Text × Text))
    → text_eq j k ≡ false
    → lookup k (insert j v m) ≡ lookup k m
lookup-insert_other k j v [] other = rw other refl
lookup-insert_other k j v ((i, w) ∷ m) other = elim (Bool-cases (text_eq i j)) [
  | inl same ↦
      (let named : i ≡ j = text_eq_sound i j same in
        rw (same, other, ap (λ t. text_eq t k) named, other) refl)
  | inr apart ↦ rw (apart, lookup-insert_other k j v m other) refl
]

-- A last pair of another key is passed over.
pub lookup-insert_all_other :
    (k j v : Text) (xs m : List (Text × Text))
    → text_eq j k ≡ false
    → lookup k (insert_all (xs ++ (j, v) ∷ []) m) ≡ lookup k (insert_all xs m)
lookup-insert_all_other k j v xs m other =
    rw (insert_all-++ xs ((j, v) ∷ []) m) (lookup-insert_other k j v (insert_all xs m) other)

-- A member more.
pub set_member-AreScalars :
    (k t : Text) (fs : Fields) → AreScalars fs → AreScalars (set_member k (str t) fs)
unfolding set_member
set_member-AreScalars k t end scalars = (tt, tt)
set_member-AreScalars k t (field j v fs) (here, scalars) = elim (Bool-cases (text_eq j k)) [
  | inl same ↦ rw same (tt, scalars)
  | inr apart ↦ rw apart (here, set_member-AreScalars k t fs scalars)
]

pub is_member-set_member :
    (k j t : Text) (fs : Fields)
    → text_eq j k ≡ false
    → is_member k fs ≡ false
    → is_member k (set_member j (str t) fs) ≡ false
unfolding set_member is_member
is_member-set_member k j t end other new = rw other refl
is_member-set_member k j t (field i v fs) other new = elim (Bool-cases (text_eq i k)) [
  | inl clash ↦ (let wrong = rw clash at new in cc)
  | inr apart ↦
      (let rest = is_member-set_member k j t fs other (rw apart at new) in
        elim (Bool-cases (text_eq i j)) [
          | inl same ↦ rw (same, other) (rw apart at new)
          | inr away ↦ rw (away, apart, rest) refl
        ])
]

-- The constructor sees only the members.
pub of_json_members :
    (r : Reads) (cs : List Column) (fs gs : Fields)
    → ((k : Text) → is_member k gs ≡ is_member k fs)
    → ((k : Text) → member k gs ≡ member k fs)
    → of_json r cs gs ≡ of_json r cs fs
unfolding of_json
of_json_members r [] fs gs there same = refl
of_json_members r (c ∷ cs) fs gs there same =
    rw (there c.name, same c.name, of_json_members r cs fs gs there same) refl
