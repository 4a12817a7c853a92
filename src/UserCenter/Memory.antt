-- ===== src/UserCenter/Memory.antt =====
-- A session and a table in memory, which show that the documented behaviour can be met.
use project_collection.Base.{
  ℕ, suc, ◌+◌, ◌≤◌, ◌≡◌, refl, some, none, Option, List, [], ◌∷◌, ◌++◌, arith, length, not,
  if◌then◌else◌, false, inl,
}
use project_collection.Base.Int.{ℤ, pos, negsuc}
use project_collection.Base.Text.{Text, text_eq, text_eq_refl}
use project_collection.Common.{ok}
use project_collection.Models.{is_number}
use project_collection.Database.Memory.{unique, unique_refused}
use project_collection.Database.{Mapper, select}
use project_collection.UserCenter.Model.{User}
use project_collection.UserCenter.Service.{Sessions, new_account}
use project_collection.UserCenter.Contract.{IsSessions, IsUsers}

-- A session is a function from keys.
abbrev pub session_map : Sessions (Text → Option User)
session_map = record {
  find = λ k s. s k;
  insert = λ k u s j. if text_eq j k then some u else s j;
  erase = λ k s j. if text_eq j k then none else s j;
}

pub session_map-IsSessions : IsSessions session_map
session_map-IsSessions = record {
  find-insert = λ k u s. rw (text_eq_refl k) refl;
  find-erase = λ k s. rw (text_eq_refl k) refl;
}

-- A bound above every id of the table, as an auto-increment key gives.
abbrev id_of : Option ℤ → ℕ
id_of none = 0
id_of (some (pos n)) = n
id_of (some (negsuc n)) = 0

abbrev next_id : List User → ℕ
next_id [] = 1
next_id (u ∷ us) = suc (id_of u.id + next_id us)

abbrev keyed : ℕ → User → User
keyed n u = record u { id = some (pos n) }

abbrev pub user_table : Mapper User (List User)
user_table = record {
  rows = λ d. d;
  sort_key = λ t. t;
  find_all = λ d. (ok d, d);
  find_by = λ p d. (ok (select p d), d);
  find_one = λ p d. (unique (select p d), d);
  insert = λ u d. (ok (keyed (next_id d) u), d ++ keyed (next_id d) u ∷ []);
  update = λ u d. (ok 0, d);
  delete_by = λ p d. (ok (length (select p d)), select (λ u. not (p u)) d);
}

below : (o : Option ℤ) (n : ℕ) → suc (id_of o) ≤ n → is_number o (pos n) ≡ false
below none n h = refl
below (some (pos m)) n h = ground arith
below (some (negsuc m)) n h = ground arith

unused : (us : List User) (n : ℕ) → next_id us ≤ n → select (λ u. is_number u.id (pos n)) us ≡ []
unused [] n h = refl
unused (u ∷ us) n h = rw (below u.id n (omega arith)) (unused us n (omega arith))

pub user_table-IsUsers : IsUsers user_table
user_table-IsUsers = record {
  reads = record {
    all_found = λ d. refl;
    found = λ p d. refl;
    one = λ p d x e. rw e refl;
    not_one = λ p d h. let (e, threw) = unique_refused (select p d) h in (e, rw threw refl);
  };
  inserted = λ account encrypted planet_code d.
      let u = new_account account encrypted planet_code in
      inl (
        keyed (next_id d) u,
        keyed (next_id d) u,
        refl,
        refl,
        record {
          fresh = (pos (next_id d), refl, refl, unused d (next_id d) (omega arith));
          account = refl;
          password = refl;
          planet = refl;
        },
      );
  deleted = λ p d. (refl, refl);
}
