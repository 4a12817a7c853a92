-- ===== src/Common/Values.antt =====
-- The part of jsoncpp's `Json::Value` that the program builds and reads. A double stands as its 64
-- bits.
use project_collection.Base.{ℕ, Bool, true, false, if◌then◌else◌, List, [], ◌∷◌}
use project_collection.Base.Int.{ℤ}
use project_collection.Base.Text.{Text, text_eq}

mutual
  pub data Json : Type 0 where
    null : Json
    boolean : Bool → Json
    int : ℤ → Json
    real : ℕ → Json
    str : Text → Json
    arr : Items → Json
    obj : Fields → Json

  pub data Items : Type 0 where
    nil : Items
    cons : Json → Items → Items

  pub data Fields : Type 0 where
    end : Fields
    field : Text → Json → Fields → Fields

-- `value[key] = v` on the members of an object.
unfoldable pub set_member : Text → Json → Fields → Fields
set_member k v end = field k v end
set_member k v (field j w fs) = if text_eq j k then field k v fs else field j w (set_member k v fs)

-- `value[key]`: a missing member reads as null.
unfoldable pub member : Text → Fields → Json
member k end = null
member k (field j w fs) = if text_eq j k then w else member k fs

-- `isMember`
unfoldable pub is_member : Text → Fields → Bool
is_member k end = false
is_member k (field j w fs) = let rest = is_member k fs in if text_eq j k then true else rest

-- `value[key]` on a value that is an object or null.
unfoldable pub get : Text → Json → Json
unfolding member
get k (obj fs) = member k fs
get k _ = null

-- The array that `append` builds from an empty value: with nothing appended it stays null.
unfoldable pub items_of : {A : Type 0} → (A → Json) → List A → Items
items_of f [] = nil
items_of f (x ∷ xs) = cons (f x) (items_of f xs)

unfoldable pub array_of : {A : Type 0} → (A → Json) → List A → Json
unfolding items_of
array_of f [] = null
array_of f (x ∷ xs) = arr (items_of f (x ∷ xs))
