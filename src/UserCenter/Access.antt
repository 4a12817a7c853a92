-- ===== src/UserCenter/Access.antt =====
-- The handlers that answer by the login state: who may search and delete, and what is shown.
use project_collection.Base.{
  ◌≡◌, refl, ◌∙◌, sym, true, false, Bool, not, List, arith, length, map, ◌==◌, Bool-cases,
  Option-cases, ◌⊎◌, inl, inr, some, none, if◌then◌else◌,
}
use project_collection.Base.Int.{ℤ, pos, ◌≤ℤ◌, leb_ℤ}
use project_collection.Base.Text.{Text, codes}
use project_collection.Common.{
  ok, business_with, params_error, make_success_json, make_error_json, make_list_json,
}
use project_collection.Models.{number_of, is_text, is_number, eqb_ℤ, eqb_ℤ_sound, eqb_ℤ_refl}
use project_collection.Database.{Mapper, select}
use project_collection.UserCenter.Model.{User, user_to_json}
use project_collection.UserCenter.Service.{
  Sessions, World, user_login_state, get_safety_user, is_nil, user_search, user_delete,
}
use project_collection.UserCenter.Controller.{
  admin_role, bool_json, current_login, is_admin, handle_search, handle_delete,
}
use project_collection.UserCenter.Contract.{IsUsers}
use project_collection.UserCenter.Safety.{AreSafe, map-AreSafe}

-- The session's login state is an account with the role of an administrator.
abbrev pub IsAdmin : {S : Type 0} → Sessions S → S → Type 0
IsAdmin sessions s =
    (u : User) × (sessions.find user_login_state s ≡ some u) × (number_of u.user_role ≡ admin_role)

-- The rows that a search asks for: all, or those of the name.
abbrev pub hits : (Text → Text) → Text → List User → List User
hits sort_key username rows =
    if is_nil username then rows else select (λ u. is_text sort_key u.username username) rows

module _ {S Db : Type 0} (sessions : Sessions S) (users : Mapper User Db) (md5 : Text → Text)
    (date_text : ℤ → Text) (contract : IsUsers users) (w : World S Db) where
  -- `isAdmin` reads the session and nothing else.
  IsAdmin-cases :
      (IsAdmin sessions w.session × (is_admin sessions users md5 date_text w ≡ (ok true, w)))
      ⊎ ((¬ IsAdmin sessions w.session) × (is_admin sessions users md5 date_text w ≡ (ok false, w)))
  unfolding is_admin current_login
  IsAdmin-cases = elim (Option-cases (sessions.find user_login_state w.session)) [
    | inl nobody ↦
        inr (
          (λ (u, found, role). let clash : none ≡ some u = sym nobody ∙ found in cc),
          rw nobody refl,
        )
    | inr (u, found) ↦ elim (Bool-cases (eqb_ℤ (number_of u.user_role) admin_role)) [
      | inl yes_admin ↦ inl ((u, found, eqb_ℤ_sound _ _ yes_admin), rw (found, yes_admin) refl)
      | inr other ↦ inr (
        (λ (v, found', role).
            let is_one : number_of u.user_role ≡ admin_role = cc in
            let hit : eqb_ℤ (number_of u.user_role) admin_role ≡ true =
              rw is_one (eqb_ℤ_refl admin_role) in
            cc),
        rw (found, other) refl,
      )
    ]
  ]

  -- An administrator's search answers with one account for each row of that name, or for each row
  -- for an empty name, in their order: it shows the row's id, names and role and not its password.
  -- Anyone else is refused. A search changes nothing.
  pub handle_search_decides :
      (username : Text)
      → (IsAdmin sessions w.session
          × (shown : List User) × AreSafe date_text
              (hits users.sort_key username (users.rows w.db))
              shown
          × (handle_search sessions users md5 date_text username w
              ≡ (ok (make_list_json (user_to_json date_text) shown), w)))
        ⊎ ((¬ IsAdmin sessions w.session)
            × (handle_search sessions users md5 date_text username w
                ≡ (ok (make_error_json (business_with params_error (codes "非管理员用户，无查询权限"))), w)))
  unfolding handle_search user_search
  handle_search_decides username = elim IsAdmin-cases [
    | inr (outsider, answer) ↦ inr (outsider, rw answer refl)
    | inl (admin, answer) ↦ elim (Bool-cases (is_nil username)) [
      | inl all_rows ↦ inl (
        admin,
        map get_safety_user (users.rows w.db),
        rw (all_rows) (map-AreSafe date_text (users.rows w.db)),
        rw (answer, all_rows, contract.reads.all_found w.db) refl,
      )
      | inr named ↦ inl (
        admin,
        map get_safety_user
            (select (λ u. is_text users.sort_key u.username username) (users.rows w.db)),
        rw (named) (map-AreSafe date_text _),
        rw
            (
              answer,
              named,
              contract.reads.found (λ u. is_text users.sort_key u.username username) w.db,
            )
            refl,
      )
    ]
  ]

  abbrev with_id : ℤ → User → Bool
  with_id id u = is_number u.id id

  -- What an administrator's request to delete the account `id` does: the rows of that id are gone,
  -- and the answer is a success when there was one.
  abbrev pub Deleted : User → ℤ → Type 0
  Deleted req id =
      (users.rows (handle_delete sessions users md5 date_text req w).1.db
        ≡ select (λ u. not (with_id id u)) (users.rows w.db))
      × ((handle_delete sessions users md5 date_text req w).1.session ≡ w.session)
      × ((handle_delete sessions users md5 date_text req w).0
          ≡ ok (
              if length (select (with_id id) (users.rows w.db)) == 1
              then make_success_json bool_json true
              else make_error_json (business_with params_error (codes "删除指定用户失败"))))

  delete_row :
      (req : User) (id : ℤ)
      → req.id ≡ some id
      → leb_ℤ id (pos 0) ≡ false
      → is_admin sessions users md5 date_text w ≡ (ok true, w)
      → Deleted req id
  unfolding handle_delete user_delete
  delete_row req id given positive admin =
      let (counted, left) = contract.deleted (with_id id) w.db in
      elim (Bool-cases (length (select (with_id id) (users.rows w.db)) == 1)) [
        | inl one ↦ (
          rw (admin, given, positive, counted, one) left,
          rw (admin, given, positive, counted, one) refl,
          rw (admin, given, positive, counted, one) refl,
        )
        | inr other ↦ (
          rw (admin, given, positive, counted, other) left,
          rw (admin, given, positive, counted, other) refl,
          rw (admin, given, positive, counted, other) refl,
        )
      ]

  -- A request names a row to delete when it carries a positive id.
  abbrev pub Names : User → ℤ → Type 0
  Names req id = (req.id ≡ some id) × (pos 1 ≤ℤ id)

  abbrev pub DeleteRefused : User → Type 0
  DeleteRefused req =
      (d : Text) × (handle_delete sessions users md5 date_text req w
        ≡ (ok (make_error_json (business_with params_error d)), w))

  bad_id :
      (req : User)
      → ((id : ℤ) → ¬ Names req id)
      → is_admin sessions users md5 date_text w ≡ (ok true, w)
      → DeleteRefused req
  unfolding handle_delete
  bad_id req unnamed admin = elim (Option-cases req.id) [
    | inl absent ↦ (codes "用户id不合法", rw (admin, absent) refl)
    | inr (id, given) ↦ elim (Bool-cases (leb_ℤ id (pos 0))) [
      | inl low ↦ (codes "用户id不合法", rw (admin, given, low) refl)
      | inr positive ↦ absurd (unnamed id (given, ground arith))
    ]
  ]

  outsider :
      (req : User) → is_admin sessions users md5 date_text w ≡ (ok false, w) → DeleteRefused req
  unfolding handle_delete
  outsider req refused = (codes "非管理员用户，无删除权限", rw refused refl)

  -- Only an administrator's request with a positive id deletes anything, and it deletes the rows of
  -- that id only; any other request is refused with a message and changes nothing.
  pub handle_delete_decides :
      (req : User)
      → (IsAdmin sessions w.session
          × ((id : ℤ) × (req.id ≡ some id) × (pos 1 ≤ℤ id) × Deleted req id))
        ⊎ ((¬ (IsAdmin sessions w.session × ((id : ℤ) × Names req id))) × DeleteRefused req)
  handle_delete_decides req = elim IsAdmin-cases [
    | inr (other, answer) ↦ inr ((λ both. other both.0), outsider req answer)
    | inl (admin, answer) ↦ elim (Option-cases req.id) [
      | inl absent ↦
          inr (unnamed answer λ id names. let clash : none ≡ some id = sym absent ∙ names.0 in cc)
      | inr (id, given) ↦ elim (Bool-cases (leb_ℤ id (pos 0))) [
        | inl low ↦ inr (
            unnamed answer λ n names.
              let same : n ≡ id = cc in let one : pos 1 ≤ℤ id = rw (← same) names.1 in ground arith)
        | inr positive ↦
            inl (admin, (id, given, ground arith, delete_row req id given positive answer))
      ]
    ]
  ]
    where
      unnamed :
          is_admin sessions users md5 date_text w ≡ (ok true, w)
          → ((id : ℤ) → ¬ Names req id)
          → (¬ (IsAdmin sessions w.session × ((id : ℤ) × Names req id))) × DeleteRefused req
      unnamed answer nothing =
          ((λ both. let (id, names) = both.1 in nothing id names), bad_id req nothing answer)
