-- ===== src/UserCenter/Session.antt =====
-- The login state through login, `current` and logout, and what the answers hide.
use project_collection.Base.{
  ◌≡◌, ◌≢◌, refl, Bool, [], ◌∷◌, Option, some, none, Option-cases, List-cases, ◌⊎◌, inl, inr,
  length, arith,
}
use project_collection.Base.Int.{ℤ, pos}
use project_collection.Base.Text.{Text, codes, text_eq}
use project_collection.Common.{
  Outcome, ok, business_of, business_with, params_error, no_login, Json, int, null, get,
  make_success_json, make_error_json,
}
use project_collection.Models.{number_of, is_number}
use project_collection.Database.{Mapper, IsReader, select}
use project_collection.UserCenter.Model.{User, user_to_json}
use project_collection.UserCenter.Service.{
  Sessions, World, user_login_state, get_safety_user, user_current, user_logout,
}
use project_collection.UserCenter.Controller.{handle_current, handle_logout}
use project_collection.UserCenter.Contract.{IsSessions}
use project_collection.UserCenter.Safety.{IsSafe, get_safety_user-IsSafe}

module _ {S Db : Type 0} (sessions : Sessions S) (users : Mapper User Db) (md5 : Text → Text)
    (date_text : ℤ → Text) where
  abbrev current : World S Db → Outcome Json × World S Db
  current = handle_current sessions users md5 date_text

  -- What getCurrentUser answers: without a login state, that no one is logged in; with one, an account
  -- that shows the id, names and role of the row of its id as it is in the table now and not the
  -- password, if there is exactly one such row, and otherwise an error. It changes nothing.
  pub handle_current_decides :
      IsReader users
      → (w : World S Db)
      → ((sessions.find user_login_state w.session ≡ none)
          × (current w ≡ (ok (make_error_json (business_of no_login)), w)))
        ⊎ ((u : User) × (sessions.find user_login_state w.session ≡ some u)
            × (((r : User) × (select (λ x. is_number x.id (number_of u.id)) (users.rows w.db)
                    ≡ r ∷ [])
                  × (shown : User) × IsSafe date_text r shown
                  × (current w ≡ (ok (make_success_json (user_to_json date_text) shown), w)))
                ⊎ ((length (select (λ x. is_number x.id (number_of u.id)) (users.rows w.db)) ≢ 1)
                    × (current w ≡ (
                      ok (make_error_json (business_with params_error (codes "获取当前用户失败"))),
                      w,
                    )))))
  unfolding handle_current user_current
  handle_current_decides reads w = elim (Option-cases (sessions.find user_login_state w.session)) [
    | inl nobody ↦ inl (nobody, rw nobody refl)
    | inr (u, found) ↦
        let p : User → Bool = λ x. is_number x.id (number_of u.id) in
        elim (List-cases (select p (users.rows w.db))) [
          | inl nothing ↦ inr (u, found, inr (several u found (rw nothing (omega arith))))
          | inr (r, [], one) ↦ inr (
            u,
            found,
            inl (
              r,
              one,
              get_safety_user r,
              get_safety_user-IsSafe date_text r,
              rw (found, reads.one p w.db r one) refl,
            ),
          )
          | inr (r, r' ∷ rs, more) ↦ inr (u, found, inr (several u found (rw more (omega arith))))
        ]
  ]
    where
      several :
          (u : User)
          → sessions.find user_login_state w.session ≡ some u
          → length (select (λ x. is_number x.id (number_of u.id)) (users.rows w.db)) ≢ 1
          → (length (select (λ x. is_number x.id (number_of u.id)) (users.rows w.db)) ≢ 1)
            × (current w
                ≡ (ok (make_error_json (business_with params_error (codes "获取当前用户失败"))), w))
      several u found count =
          let (e, threw) = reads.not_one (λ x. is_number x.id (number_of u.id)) w.db count in
          (count, rw (found, threw) refl)

  -- After a logout, `current` answers that no one is logged in, and the table is as it was.
  pub handle_logout-handle_current :
      IsSessions sessions
      → (w : World S Db)
      → ((handle_logout sessions users md5 date_text w).0 ≡ ok (make_success_json int (pos 1)))
        × ((current (handle_logout sessions users md5 date_text w).1).0
            ≡ ok (make_error_json (business_of no_login)))
        × ((handle_logout sessions users md5 date_text w).1.db ≡ w.db)
  unfolding handle_logout user_logout handle_current
  handle_logout-handle_current keeps w =
      (refl, rw (keeps.find-erase user_login_state w.session) refl, refl)

-- The answer for an account shows no password, and is the same whatever password the row has.
pub user_to_json-get_safety_user :
    (date_text : ℤ → Text) (u : User) (p : Option Text)
    → (get (codes "userPassword") (user_to_json date_text (get_safety_user u)) ≡ null)
      × (user_to_json date_text (get_safety_user (record u { user_password = p }))
          ≡ user_to_json date_text (get_safety_user u))
unfolding get user_to_json get_safety_user text_eq codes
user_to_json-get_safety_user date_text u p = (refl, refl)
