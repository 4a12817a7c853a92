-- ===== src/Database/Memory.antt =====
-- A table in memory that is read, which shows that the documented behaviour can be met.
use project_collection.Base.{◌≡◌, ◌≢◌, refl, List, [], ◌∷◌, length}
use project_collection.Base.Text.{Text, codes}
use project_collection.Common.{Outcome, ok, raised, Action, drogon_db_exception}
use project_collection.Database.{Mapper, IsReader, select}

abbrev pub unique : {T : Type 0} → List T → Outcome T
unique [] = raised (drogon_db_exception (codes "0 rows found"))
unique (x ∷ []) = ok x
unique (x ∷ y ∷ xs) = raised (drogon_db_exception (codes "Found more than one row"))

-- The part of a mapper that only reads; nothing is updated or deleted through it.
abbrev pub reader : {T Db : Type 0} → (Db → List T) → (T → Action Db T) → Mapper T Db
reader rows insert = record {
  rows = rows;
  sort_key = λ t. t;
  find_all = λ d. (ok (rows d), d);
  find_by = λ p d. (ok (select p (rows d)), d);
  find_one = λ p d. (unique (select p (rows d)), d);
  insert = insert;
  update = λ x d. (ok 0, d);
  delete_by = λ p d. (ok 0, d);
}

pub unique_refused :
    {T : Type 0} (xs : List T)
    → length xs ≢ 1
    → (e : Text) × (unique xs ≡ raised (drogon_db_exception e))
unique_refused [] h = (codes "0 rows found", refl)
unique_refused (x ∷ []) h = absurd (h refl)
unique_refused (x ∷ y ∷ xs) h = (codes "Found more than one row", refl)

pub reader-IsReader :
    {T Db : Type 0} (rows : Db → List T) (insert : T → Action Db T) → IsReader (reader rows insert)
reader-IsReader rows insert = record {
  all_found = λ d. refl;
  found = λ p d. refl;
  one = λ p d x e. rw e refl;
  not_one = λ p d h. let (e, threw) = unique_refused (select p (rows d)) h in (e, rw threw refl);
}
