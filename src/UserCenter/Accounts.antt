-- ===== src/UserCenter/Accounts.antt =====
-- The accounts through `userRegister` and `userLogin`: names and codes stay unique, and who has
-- registered can log in.
use project_collection.Base.{
  ◌≡◌, sym, subst, true, Bool, List, [], ◌∷◌, ◌++◌, arith, length, ◌≤◌, Bool-cases, inl, inr,
  length-append,
}
use project_collection.Base.Text.{Text, text_eq_sound}
use project_collection.Models.{has_key}
use project_collection.Database.{Mapper, select}
use project_collection.UserCenter.Model.{User}
use project_collection.UserCenter.Service.{Sessions, World, user_register}
use project_collection.UserCenter.Contract.{IsUsers}
use project_collection.UserCenter.Registration.{
  has_account, has_planet, select-append, user_register_decides, Fits, Opened,
}

-- No two rows have the same account name, and none the same planet code.
abbrev pub IsUnique : (Text → Text) → List User → Type 0
IsUnique sort_key rows =
    ((account : Text) → length (select (has_account sort_key account) rows) ≤ 1)
    × ((planet_code : Text) → length (select (has_planet sort_key planet_code) rows) ≤ 1)

-- The row a registration adds is found by no test that found another row.
one_more :
    {A : Type 0} (p : A → Bool) (rows : List A) (r : A)
    → length (select p rows) ≤ 1
    → ((p r ≡ true) → select p rows ≡ [])
    → length (select p (rows ++ r ∷ [])) ≤ 1
one_more p rows r h free = elim (Bool-cases (p r)) [
  | inl hit ↦ rw (select-append p rows (r ∷ []), hit, free hit) (omega arith)
  | inr miss ↦
      rw (select-append p rows (r ∷ []), miss, length-append (select p rows) []) (omega (arith, h))
]

module _ {S Db : Type 0} (sessions : Sessions S) (users : Mapper User Db) (md5 : Text → Text)
    (contract : IsUsers users) (account password check_password planet_code : Text)
    (w : World S Db) where
  abbrev after : World S Db
  after = (user_register sessions users md5 account password check_password planet_code w).1

  stays-IsUnique :
      IsUnique users.sort_key (users.rows w.db)
      → Fits sessions users md5 contract account password check_password planet_code w
      → Opened sessions users md5 contract account password check_password planet_code w
      → IsUnique users.sort_key (users.rows after.db)
  stays-IsUnique (accounts, planets) (a, p, c, l, same, no_account, no_planet)
        (user', r, returned, added, stored, kept) =
      (
        (λ name. rw added (
            one_more (has_account users.sort_key name) (users.rows w.db) r (accounts name) (λ hit.
              let e =
                text_eq_sound (users.sort_key account) (users.sort_key name)
                  (rw stored.account at hit) in
              subst
                (λ k. select (λ u. has_key users.sort_key u.user_account k) (users.rows w.db) ≡ [])
                e no_account))),
        (λ code. rw added (
            one_more (has_planet users.sort_key code) (users.rows w.db) r (planets code) (λ hit.
              let e =
                text_eq_sound (users.sort_key planet_code) (users.sort_key code)
                  (rw stored.planet at hit) in
              subst
                (λ k. select (λ u. has_key users.sort_key u.planet_code k) (users.rows w.db) ≡ []) e
                no_planet))),
      )

  -- Account names and planet codes stay unique, whatever a registration asks for.
  pub user_register-IsUnique :
      IsUnique users.sort_key (users.rows w.db) → IsUnique users.sort_key (users.rows after.db)
  user_register-IsUnique unique =
      elim (user_register_decides sessions users md5 contract account password check_password
        planet_code w) [
          | inl (fits, inl opened) ↦ stays-IsUnique unique fits opened
          | inl (fits, inr (narrow, e, threw, same, kept)) ↦ rw same unique
          | inr (unfit, (d, refused)) ↦
              subst (λ s. IsUnique users.sort_key (users.rows s.1.db)) (sym refused) unique
        ]
