-- ===== src/Database.antt =====
-- drogon's `Mapper<T>` over the MySQL database, a parameter of the model: its operations, and the
-- documented behaviour of the queries. `rows` is what the table holds.
pub mod Memory
use project_collection.Base.{ℕ, Bool, List, [], ◌∷◌, ◌≡◌, ◌≢◌, if◌then◌else◌, length}
use project_collection.Common.{ok, raised, Action, drogon_db_exception}
use project_collection.Base.Text.{Text}

-- `Criteria` stand as the test that they make of a row. Texts are equal for the database when the
-- collation of the table gives them one sort key: the default ones ignore case.
pub record Mapper (T Db : Type 0) : Type 0 where
  pub rows : Db → List T
  pub sort_key : Text → Text
  pub find_all : Action Db (List T)
  pub find_by : (T → Bool) → Action Db (List T)
  pub find_one : (T → Bool) → Action Db T
  pub insert : T → Action Db T
  pub update : T → Action Db ℕ
  pub delete_by : (T → Bool) → Action Db ℕ

abbrev pub select {ℓ} : {A : Type ℓ} → (A → Bool) → List A → List A
select p [] = []
select p (x ∷ xs) = if p x then x ∷ select p xs else select p xs

-- A query changes nothing; `findOne` throws unless exactly one row fits.
pub record IsReader {T Db : Type 0} (m : Mapper T Db) : Type 0 where
  pub all_found : (d : Db) → m.find_all d ≡ (ok (m.rows d), d)
  pub found : (p : T → Bool) (d : Db) → m.find_by p d ≡ (ok (select p (m.rows d)), d)
  pub one :
      (p : T → Bool) (d : Db) (x : T) → select p (m.rows d) ≡ x ∷ [] → m.find_one p d ≡ (ok x, d)
  pub not_one :
      (p : T → Bool) (d : Db)
      → length (select p (m.rows d)) ≢ 1
      → (e : Text) × (m.find_one p d ≡ (raised (drogon_db_exception e), d))
