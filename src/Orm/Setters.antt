-- ===== src/Orm/Setters.antt =====
-- What the setters of a class change in a row, and what the mapper then writes to the table.

use project_collection.Base.{
  ℕ, zero, suc, ◌+◌, arith, ◌≡◌, ◌≢◌, refl, sym, ◌∙◌, ap, true, false, List, [], ◌∷◌, Option, none,
  some, get_elem?, Bool-cases, inl, inr,
}
use project_collection.Base.Int.{ℤ}
use project_collection.Orm.{Column, Field, Row}
use project_collection.Orm.Values.{Value}
use project_collection.Orm.Access.{Accessor, value_at, rounded, mark_at, accessor, accessors}
use project_collection.Orm.Sql.{update_columns, update_args}
use project_collection.Orm.Update.{IsClean}

clean_row :
    (cs : List Column) (row : Row)
    → IsClean cs row
    → (update_columns cs row ≡ []) × (update_args cs row ≡ [])
unfolding update_columns update_args
clean_row [] [] clean = (refl, refl)
clean_row (c ∷ cs) (f ∷ row) (unmarked, clean) =
    let rest = clean_row cs row clean in
    elim (Bool-cases c.is_auto) [
      | inl auto ↦ rw (auto) rest
      | inr given ↦ rw (given, unmarked) rest
    ]
clean_row [] (f ∷ row) clean = absurd clean
clean_row (c ∷ cs) [] clean = absurd clean

-- The values of a row but for one column.
abbrev KeepsOthers : ℕ → Row → Row → Type 0
KeepsOthers i old row = (j : ℕ) → j ≢ i → value_at j row ≡ value_at j old

abbrev accessor_or : Accessor → Option Accessor → Accessor
accessor_or a none = a
accessor_or a (some b) = b

abbrev column_or : Column → Option Column → Column
column_or c none = c
column_or c (some b) = b

keeps_tail : (row : Row) (old f : Field) → KeepsOthers 0 (old ∷ row) (f ∷ row)
keeps_tail row old f zero other = absurd (other refl)
keeps_tail row old f (suc j) other = refl

keeps_head :
    (i : ℕ) (f : Field) (old row : Row)
    → KeepsOthers i old row
    → KeepsOthers (suc i) (f ∷ old) (f ∷ row)
keeps_head i f old row kept zero other = refl
keeps_head i f old row kept (suc j) other = kept j λ e. other (ap suc e)

-- What an update then writes, and what the getters read.
abbrev pub Sets : List Column → ℕ → Column → Option Value → Row → Row → Type 0
Sets cs i c o old row =
    (update_columns cs row ≡ c.name ∷ [])
    × (update_args cs row ≡ o ∷ [])
    × (value_at i row ≡ o)
    × KeepsOthers i old row

mark_at-Sets :
    (cs : List Column) (i : ℕ) (c : Column) (o : Option Value) (row : Row)
    → get_elem? cs i ≡ some c
    → c.is_auto ≡ false
    → IsClean cs row
    → Sets cs i c o row (mark_at i o row)
unfolding update_columns update_args mark_at
mark_at-Sets (b ∷ cs) zero c o (f ∷ row) found given (unmarked, clean) =
    let (none_named, none_bound) = clean_row cs row clean in
    let same : b ≡ c = ap (column_or c) found in
    rw (same, given, none_named, none_bound)
      (refl, refl, refl, keeps_tail row f (record { value = o; dirty = true }))
mark_at-Sets (b ∷ cs) (suc i) c o (f ∷ row) found given (unmarked, clean) =
    let (named, bound, read, kept) = mark_at-Sets cs i c o row found given clean in
    let others = keeps_head i f row (mark_at i o row) kept in
    elim (Bool-cases b.is_auto) [
      | inl auto ↦ rw (auto) (named, bound, read, others)
      | inr marked ↦ rw (marked, unmarked) (named, bound, read, others)
    ]
mark_at-Sets (b ∷ cs) i c o [] found given clean = absurd clean
mark_at-Sets [] i c o row found given clean = absurd (cc)

accessors_lem :
    (round_day : ℤ → ℤ) (n : ℕ) (cs : List Column) (i : ℕ) (c : Column) (a : Accessor)
    → get_elem? cs i ≡ some c
    → get_elem? (accessors round_day n cs) i ≡ some a
    → a ≡ accessor round_day (n + i) c
unfolding accessors
accessors_lem round_day n (b ∷ cs) zero c a found made =
    sym (ap (accessor_or a) made)
    ∙ ap (accessor round_day n) (ap (column_or c) found)
    ∙ ap (λ k. accessor round_day k c) (omega arith)
accessors_lem round_day n (b ∷ cs) (suc i) c a found made =
    accessors_lem round_day (suc n) cs i c a found made
    ∙ ap (λ k. accessor round_day k c) (omega arith)
accessors_lem round_day n [] i c a found made = absurd (cc)

-- `setXToNull` is there for the columns that can be null.
abbrev pub SetsNull : List Column → ℕ → Column → Row → Option (Row → Row) → Type 0
SetsNull cs i c row none = c.not_null ≡ true
SetsNull cs i c row (some set_to_null) = Sets cs i c none row (set_to_null row)

-- For a column that is not generated, on a row without marks: after its setter, an update names
-- exactly this column and binds the new value, a day rounded to its midnight; the getters read that
-- value, and the other columns keep theirs. The setter to null, which a column has that can be null,
-- does the same with null.
pub accessors-update_columns :
    (round_day : ℤ → ℤ) (cs : List Column) (i : ℕ) (c : Column) (a : Accessor) (v : Value)
    (row : Row)
    → get_elem? cs i ≡ some c
    → get_elem? (accessors round_day 0 cs) i ≡ some a
    → c.is_auto ≡ false
    → IsClean cs row
    → Sets cs i c (some (rounded round_day c.kind v)) row (a.set v row)
      × (a.value_of (a.set v row) ≡ rounded round_day c.kind v)
      × SetsNull cs i c row a.set_to_null
unfolding accessor
accessors-update_columns round_day cs i c a v row found made given clean =
    let same : a ≡ accessor round_day i c =
      accessors_lem round_day 0 cs i c a found made
      ∙ ap (λ k. accessor round_day k c) (omega arith) in
    let sets = mark_at-Sets cs i c (some (rounded round_day c.kind v)) row found given clean in
    let (_, _, read, _) = sets in
    elim (Bool-cases c.not_null) [
      | inl needed ↦ rw (same, needed) (sets, rw (read) refl, refl)
      | inr nullable ↦
          rw (same, nullable) (sets, rw (read) refl, mark_at-Sets cs i c none row found given clean)
    ]
