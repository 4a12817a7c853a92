-- ===== src/UserCenter/Login.antt =====
-- `userLogin`: who is let in, and what the session holds afterwards.
use project_collection.Base.{
  ◌≡◌, ◌≢◌, refl, ap, false, Bool, List, [], ◌∷◌, arith, length, ◌≤◌, ◌||◌, ◌&&◌, Bool-cases, ◌⊎◌,
  inl, inr, some, none, ltb, leb, List-cases,
}
use project_collection.Base.Int.{ℤ}
use project_collection.Base.Text.{Text, codes, text_eq_refl}
use project_collection.Common.{Outcome, ok, raised, business, business_with, params_error}
use project_collection.Models.{number_of, is_text}
use project_collection.Database.{Mapper, select}
use project_collection.UserCenter.Model.{User}
use project_collection.UserCenter.Service.{
  Sessions, World, user_login_state, check_special_character, encrypt_pwd, get_safety_user, is_nil,
  user_register, user_login,
}
use project_collection.UserCenter.Contract.{IsSessions, IsUsers}
use project_collection.UserCenter.Registration.{
  has_account, is_nil-false, select-append, user_register_decides, Fits, Opened,
}

-- A row with this account and this digest.
abbrev pub matches : (Text → Text) → Text → Text → User → Bool
matches sort_key account digest u =
    is_text sort_key u.user_account account && is_text sort_key u.user_password digest

-- What a login asks for before the table is read.
abbrev pub IsLoginRequest : Text → Text → Type 0
IsLoginRequest account password =
    (4 ≤ length account) × (8 ≤ length password) × (check_special_character account ≡ false)

module _ {S Db : Type 0} (sessions : Sessions S) (users : Mapper User Db) (md5 : Text → Text)
    (contract : IsUsers users) (account password : Text) (w : World S Db) where
  abbrev pub found_rows : List User
  found_rows = select (matches users.sort_key account (md5 password)) (users.rows w.db)

  abbrev run : Outcome User × World S Db
  run = user_login sessions users md5 account password w

  -- The row's account without its password is returned and is the session's login state.
  abbrev pub LoggedIn : User → Type 0
  LoggedIn r = run ≡ (
    ok (get_safety_user r),
    record w { session = sessions.insert user_login_state (get_safety_user r) w.session },
  )

  abbrev pub LoginRefused : Type 0
  LoginRefused = (d : Text) × (run ≡ (raised (business (business_with params_error d)), w))

  pub logged_in : (r : User) → IsLoginRequest account password → found_rows ≡ r ∷ [] → LoggedIn r
  unfolding user_login encrypt_pwd
  logged_in r (a, p, plain) found =
      let row = contract.reads.one (matches users.sort_key account (md5 password)) w.db r found in
      rw (is_nil-false 3 account a, is_nil-false 7 password p, short, weak, plain, row) refl
    where
      short : ltb (length account) 4 ≡ false
      short = ground arith

      weak : ltb (length password) 8 ≡ false
      weak = ground arith

  unknown :
      IsLoginRequest account password
      → length found_rows ≢ 1
      → run ≡ (raised (business (business_with params_error (codes "用户不存在"))), w)
  unfolding user_login encrypt_pwd
  unknown (a, p, plain) several =
      let (e, row) =
        contract.reads.not_one (matches users.sort_key account (md5 password)) w.db several in
      rw (is_nil-false 3 account a, is_nil-false 7 password p, short, weak, plain, row) refl
    where
      short : ltb (length account) 4 ≡ false
      short = ground arith

      weak : ltb (length password) 8 ≡ false
      weak = ground arith

  malformed : (¬ IsLoginRequest account password) → LoginRefused
  unfolding user_login
  malformed bad = elim (Bool-cases (is_nil account || is_nil password)) [
    | inl blank ↦ (codes "用户账号或密码为空", rw blank refl)
    | inr filled ↦ elim (Bool-cases (ltb (length account) 4)) [
      | inl short ↦ (codes "用户账号小于4位", rw (filled, short) refl)
      | inr short ↦ elim (Bool-cases (ltb (length password) 8)) [
        | inl weak ↦ (codes "用户密码小于8位", rw (filled, short, weak) refl)
        | inr weak ↦ elim (Bool-cases (check_special_character account)) [
          | inl odd ↦ (codes "用户账号中存在特殊字符", rw (filled, short, weak, odd) refl)
          | inr plain ↦ absurd (bad (ground arith, ground arith, plain))
        ]
      ]
    ]
  ]

  request_cases : IsLoginRequest account password ⊎ (¬ IsLoginRequest account password)
  request_cases = elim (Bool-cases (leb 4 (length account) && leb 8 (length password))) [
    | inr short ↦ inr λ (a, p, plain). ground arith
    | inl long ↦ elim (Bool-cases (check_special_character account)) [
      | inl odd ↦ inr λ (a, p, plain). cc
      | inr plain ↦ inl (ground arith, ground arith, plain)
    ]
  ]

  -- A login succeeds exactly when its account and password are long enough, the account has no
  -- special character, and one row has this account and this digest; otherwise it is refused with a
  -- message and changes nothing.
  pub user_login_decides :
      (IsLoginRequest account password × (r : User) × (found_rows ≡ r ∷ []) × LoggedIn r)
      ⊎ ((¬ (IsLoginRequest account password × (length found_rows ≡ 1))) × LoginRefused)
  user_login_decides = elim request_cases [
    | inr bad ↦ inr ((λ both. bad both.0), malformed bad)
    | inl good ↦ elim (List-cases found_rows) [
      | inl nobody ↦ inr (unfit good (rw nobody (omega arith)))
      | inr (r, [], found) ↦ inl (good, r, found, logged_in r good found)
      | inr (r, r' ∷ rs, found) ↦ inr (unfit good (rw found (omega arith)))
    ]
  ]
    where
      unfit :
          IsLoginRequest account password
          → length found_rows ≢ 1
          → (¬ (IsLoginRequest account password × (length found_rows ≡ 1))) × LoginRefused
      unfit good several = ((λ both. several both.1), (codes "用户不存在", unknown good several))

select-and :
    {A : Type 0} (p q : A → Bool) (xs : List A)
    → select p xs ≡ []
    → select (λ x. p x && q x) xs ≡ []
select-and p q [] h = refl
select-and p q (x ∷ xs) h = elim (Bool-cases (p x)) [
  | inl hit ↦ let full : x ∷ select p xs ≡ [] = rw hit at h in cc
  | inr miss ↦ rw miss (select-and p q xs (rw miss at h))
]

module _ {S Db : Type 0} (sessions : Sessions S) (users : Mapper User Db) (md5 : Text → Text)
    (contract : IsUsers users) (keeps : IsSessions sessions)
    (account password check_password planet_code : Text) (w : World S Db) where
  abbrev after : World S Db
  after = (user_register sessions users md5 account password check_password planet_code w).1

  abbrev then_login : Outcome User × World S Db
  then_login = user_login sessions users md5 account password after

  -- What the login after a registration does: the new account, without its password, is returned and
  -- stands in the session.
  abbrev pub LetIn : ℤ → Type 0
  LetIn id =
      (u : User) × (then_login.0 ≡ ok u)
      × (sessions.find user_login_state then_login.1.session ≡ some u)
      × (u.id ≡ some id)
      × (u.user_account ≡ some account)
      × (u.user_password ≡ none)

  let_in :
      Fits sessions users md5 contract account password check_password planet_code w
      → Opened sessions users md5 contract account password check_password planet_code w
      → (id : ℤ)
      → (user_register sessions users md5 account password check_password planet_code w).0 ≡ ok id
      → LetIn id
  unfolding get_safety_user
  let_in (a, p, c, plain, same, new, free) (user', r, returned, added, stored, kept) id answered =
      let (n, id_new, id_row, unseen) = stored.fresh in
      let found : select (matches users.sort_key account (md5 password)) (users.rows after.db)
          ≡ r ∷ [] =
        rw
          (
            added,
            select-append (matches users.sort_key account (md5 password)) (users.rows w.db)
                (r ∷ []),
            select-and (has_account users.sort_key account)
                (λ u. is_text users.sort_key u.user_password (md5 password)) (users.rows w.db) new,
            stored.account,
            stored.password,
            text_eq_refl (users.sort_key account),
            text_eq_refl (users.sort_key (md5 password)),
          )
          refl in
      let entered =
        logged_in sessions users md5 contract account password after r (a, p, plain) found in
      (
        get_safety_user r,
        ap (λ o. o.0) entered,
        rw entered (keeps.find-insert user_login_state (get_safety_user r) after.session),
        (let same_id : number_of user'.id ≡ id = cc in rw id_row (ap some (rw id_new at same_id))),
        rw stored.account refl,
        refl,
      )

  -- After a registration that returned an id, a login with the same account and password succeeds,
  -- and the account that it puts in the session has that id.
  pub user_register_then_login :
      (id : ℤ)
      → (user_register sessions users md5 account password check_password planet_code w).0 ≡ ok id
      → LetIn id
  user_register_then_login id answered =
      elim (user_register_decides sessions users md5 contract account password check_password
        planet_code w) [
          | inl (fits, inl opened) ↦ let_in fits opened id answered
          | inl (fits, inr (narrow, e, threw, rows_kept, same)) ↦ cc
          | inr (unfit, (d, refused)) ↦ let threw = ap (λ p. p.0) refused in cc
        ]
