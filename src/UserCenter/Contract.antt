-- ===== src/UserCenter/Contract.antt =====
-- What the user center relies on of drogon's session and of the table `user`.
use project_collection.Base.{
  ℕ, ◌≡◌, Bool, true, Option, ◌&&◌, leb, false, ◌⊎◌, List, [], ◌∷◌, ◌++◌, none, some, length, not,
}
use project_collection.Base.Int.{ℤ}
use project_collection.Base.Text.{Text}
use project_collection.Common.{ok, raised, drogon_db_exception}
use project_collection.Database.{Mapper, IsReader, select}
use project_collection.Models.{is_number}
use project_collection.UserCenter.Model.{User}
use project_collection.UserCenter.Service.{Sessions, new_account}

-- A session is a map from keys to values.
pub record IsSessions {S : Type 0} (sessions : Sessions S) : Type 0 where
  pub find-insert : (k : Text) (u : User) (s : S) → sessions.find k (sessions.insert k u s) ≡ some u
  pub find-erase : (k : Text) (s : S) → sessions.find k (sessions.erase k s) ≡ none

-- How a row `r` stands in the table after `user` was inserted and came back as `user'`: the columns
-- that were set are kept, and the id is one that no row had.
pub record IsStored (user user' r : User) (rows : List User) : Type 0 where
  pub fresh :
      (n : ℤ) × (user'.id ≡ some n) × (r.id ≡ some n) × (select (λ u. is_number u.id n) rows ≡ [])
  pub account : r.user_account ≡ user.user_account
  pub password : r.user_password ≡ user.user_password
  pub planet : r.planet_code ≡ user.planet_code

-- Whether the columns of the table take what a registration sets: the lengths of sql/mysql.sql.
abbrev pub fits_text : ℕ → Option Text → Bool
fits_text size none = true
fits_text size (some t) = leb (length t) size

abbrev pub has_room : User → Bool
has_room u =
    fits_text 256 u.user_account && (fits_text 512 u.user_password && fits_text 512 u.planet_code)

module _ {Db : Type 0} (users : Mapper User Db) (user : User) (d : Db) where
  abbrev pub Inserted : Type 0
  Inserted =
      (user' r : User) × ((users.insert user d).0 ≡ ok user')
      × (users.rows (users.insert user d).1 ≡ users.rows d ++ r ∷ [])
      × IsStored user user' r (users.rows d)

  abbrev pub NotInserted : Type 0
  NotInserted =
      (e : Text) × ((users.insert user d).0 ≡ raised (drogon_db_exception e))
      × (users.rows (users.insert user d).1 ≡ users.rows d)

-- Queries, an insertion under an auto-increment key, and a deletion with its count. A text that is
-- too long for its column can be refused; a row of a registration has the other columns that must not
-- be null.
pub record IsUsers {Db : Type 0} (users : Mapper User Db) : Type 0 where
  pub reads : IsReader users
  pub inserted :
      (account encrypted planet_code : Text) (d : Db)
      → Inserted users (new_account account encrypted planet_code) d
        ⊎ ((has_room (new_account account encrypted planet_code) ≡ false)
            × NotInserted users (new_account account encrypted planet_code) d)
  pub deleted :
      (p : User → Bool) (d : Db)
      → ((users.delete_by p d).0 ≡ ok (length (select p (users.rows d))))
        × (users.rows (users.delete_by p d).1 ≡ select (λ u. not (p u)) (users.rows d))
