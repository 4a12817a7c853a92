-- ===== src/UserCenter/Tests.antt =====
-- Runs of the user center on a small table, and its guarantees at inputs that meet their conditions.
use project_collection.Base.{◌≡◌, ◌≢◌, refl, none, some, Option, List, [], ◌∷◌, arith, ◌⊎◌, length}
use project_collection.Base.Int.{ℤ, pos, ◌≤ℤ◌}
use project_collection.Base.Text.{Text, codes, text_eq, to_string}
use project_collection.Common.{
  ok, make_success_json, make_error_json, make_list_json, business_of, business_with, params_error,
  no_login, int,
}
use project_collection.Models.{number_of, is_number}
use project_collection.Database.{select}
use project_collection.Util.Regex.{regex_search}
use project_collection.UserCenter.Model.{User, no_account, user_to_json}
use project_collection.UserCenter.Service.{
  World, user_login_state, user_register, check_special_character, is_special, encrypt_pwd,
}
use project_collection.UserCenter.Controller.{handle_logout, handle_current, handle_search}
use project_collection.UserCenter.Registration.{
  user_register_decides, Fits, Opened, NotOpened, Refused,
}
use project_collection.UserCenter.Safety.{IsSafe, AreSafe}
use project_collection.UserCenter.Accounts.{IsUnique, user_register-IsUnique}
use project_collection.UserCenter.Login.{
  IsLoginRequest, found_rows, LoggedIn, LoginRefused, user_login_decides, user_register_then_login,
  LetIn,
}
use project_collection.UserCenter.Access.{
  IsAdmin, hits, Deleted, Names, DeleteRefused, handle_search_decides, handle_delete_decides,
}
use project_collection.UserCenter.Session.{handle_current_decides, handle_logout-handle_current}
use project_collection.UserCenter.Memory.{
  session_map, session_map-IsSessions, user_table, user_table-IsUsers,
}

-- A digest, and dates, for the tests.
abbrev digest : Text → Text
digest s = 120 ∷ s

abbrev date_text : ℤ → Text
date_text = to_string

abbrev empty_world : World (Text → Option User) (List User)
empty_world = record { session = λ k. none; db = [] }

abbrev name : Text
name = codes "alice"

abbrev secret : Text
secret = codes "12345678"

-- A stored account, an administrator with its password still set.
abbrev boss : User
boss = record no_account {
  id = some (pos 7);
  username = some name;
  user_account = some name;
  user_password = some (digest secret);
  user_role = some (pos 1);
}

abbrev boss_world : World (Text → Option User) (List User)
boss_world = record {
  session = session_map.insert user_login_state boss (λ k. none);
  db = boss ∷ [];
}

opened :
    (user_register session_map user_table digest name secret secret (codes "12") empty_world).0
    ≡ ok (pos 1)
unfolding user_register encrypt_pwd check_special_character is_special codes text_eq regex_search
opened = refl

user_register_decides_example :
    (Fits session_map user_table digest user_table-IsUsers name secret secret
        (codes "12")
        empty_world
      × (Opened session_map user_table digest user_table-IsUsers name secret secret
            (codes "12")
            empty_world
          ⊎ NotOpened session_map user_table digest user_table-IsUsers name secret secret
              (codes "12")
              empty_world))
    ⊎ ((¬ Fits session_map user_table digest user_table-IsUsers name secret secret
          (codes "12")
          empty_world)
        × Refused session_map user_table digest user_table-IsUsers name secret secret
            (codes "12")
            empty_world)
user_register_decides_example =
    user_register_decides session_map user_table digest user_table-IsUsers name secret secret
      (codes "12") empty_world

one_boss : IsUnique (λ t. t) (boss ∷ [])
one_boss = ((λ a. ground arith), λ c. omega arith)

user_register-IsUnique_example :
    IsUnique
      (λ t. t)
      (user_register session_map user_table digest name secret secret (codes "12") boss_world).1.db
user_register-IsUnique_example =
    user_register-IsUnique session_map user_table digest user_table-IsUsers name secret secret
      (codes "12") boss_world one_boss

user_register_then_login_example :
    LetIn session_map user_table digest user_table-IsUsers session_map-IsSessions name secret secret
      (codes "12")
      empty_world
      (pos 1)
user_register_then_login_example =
    user_register_then_login session_map user_table digest user_table-IsUsers session_map-IsSessions
      name secret secret (codes "12") empty_world (pos 1) opened

user_login_decides_example :
    (IsLoginRequest name secret
      × (r : User) × (found_rows session_map user_table digest user_table-IsUsers name secret
            boss_world
          ≡ r ∷ [])
      × LoggedIn session_map user_table digest user_table-IsUsers name secret boss_world r)
    ⊎ ((¬ (
          IsLoginRequest name secret
          × (length
                (found_rows session_map user_table digest user_table-IsUsers name secret boss_world)
              ≡ 1)))
        × LoginRefused session_map user_table digest user_table-IsUsers name secret boss_world)
user_login_decides_example =
    user_login_decides session_map user_table digest user_table-IsUsers name secret boss_world

handle_search_decides_example :
    (IsAdmin session_map boss_world.session
      × (shown : List User) × AreSafe date_text (hits (λ t. t) [] (boss ∷ [])) shown
      × (handle_search session_map user_table digest date_text [] boss_world
          ≡ (ok (make_list_json (user_to_json date_text) shown), boss_world)))
    ⊎ ((¬ IsAdmin session_map boss_world.session)
        × (handle_search session_map user_table digest date_text [] boss_world ≡ (
          ok (make_error_json (business_with params_error (codes "非管理员用户，无查询权限"))),
          boss_world,
        )))
handle_search_decides_example =
    handle_search_decides session_map user_table digest date_text user_table-IsUsers boss_world []

handle_delete_decides_example :
    (IsAdmin session_map boss_world.session
      × ((id : ℤ) × (boss.id ≡ some id)
          × (pos 1 ≤ℤ id)
          × Deleted session_map user_table digest date_text user_table-IsUsers boss_world boss id))
    ⊎ ((¬ (
          IsAdmin session_map boss_world.session
          × ((id : ℤ) × Names session_map user_table digest date_text user_table-IsUsers boss_world
                boss id)))
        × DeleteRefused session_map user_table digest date_text user_table-IsUsers boss_world boss)
handle_delete_decides_example =
    handle_delete_decides session_map user_table digest date_text user_table-IsUsers boss_world boss

handle_logout-handle_current_example :
    ((handle_logout session_map user_table digest date_text boss_world).0
      ≡ ok (make_success_json int (pos 1)))
    × ((handle_current session_map user_table digest date_text
          (handle_logout session_map user_table digest date_text boss_world).1).0
        ≡ ok (make_error_json (business_of no_login)))
    × ((handle_logout session_map user_table digest date_text boss_world).1.db ≡ boss_world.db)
handle_logout-handle_current_example =
    handle_logout-handle_current session_map user_table digest date_text session_map-IsSessions
      boss_world

handle_current_decides_example :
    ((session_map.find user_login_state boss_world.session ≡ none)
      × (handle_current session_map user_table digest date_text boss_world
          ≡ (ok (make_error_json (business_of no_login)), boss_world)))
    ⊎ ((u : User) × (session_map.find user_login_state boss_world.session ≡ some u)
        × (((r : User) × (select (λ x. is_number x.id (number_of u.id)) boss_world.db ≡ r ∷ [])
              × (shown : User) × IsSafe date_text r shown
              × (handle_current session_map user_table digest date_text boss_world
                  ≡ (ok (make_success_json (user_to_json date_text) shown), boss_world)))
            ⊎ ((length (select (λ x. is_number x.id (number_of u.id)) boss_world.db) ≢ 1)
                × (handle_current session_map user_table digest date_text boss_world ≡ (
                  ok (make_error_json (business_with params_error (codes "获取当前用户失败"))),
                  boss_world,
                )))))
handle_current_decides_example =
    handle_current_decides session_map user_table digest date_text user_table-IsUsers.reads
      boss_world
