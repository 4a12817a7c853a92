-- ===== src/UserCenter/Registration.antt =====
-- `userRegister`: which requests open an account, and what the table holds afterwards.
use project_collection.Base.{
  ℕ, ◌≡◌, refl, ◌∙◌, sym, true, false, Bool, List, [], ◌∷◌, ◌++◌, arith, length, List-cases,
  Bool-cases, ◌⊎◌, inl, inr, ◌≤◌, suc, ltb, ◌||◌,
}
use project_collection.Base.Int.{ℤ}
use project_collection.Base.Text.{Text, codes, text_eq, text_eq_sound, text_eq_refl}
use project_collection.Common.{
  Outcome, ok, raised, business, business_with, drogon_db_exception, params_error,
}
use project_collection.Models.{number_of, is_text}
use project_collection.Database.{Mapper, select}
use project_collection.UserCenter.Model.{User}
use project_collection.UserCenter.Service.{
  Sessions, World, check_special_character, encrypt_pwd, new_account, is_nil, user_register,
}
use project_collection.UserCenter.Contract.{IsStored, IsUsers, has_room}

abbrev pub has_account : (Text → Text) → Text → User → Bool
has_account sort_key account u = is_text sort_key u.user_account account

abbrev pub has_planet : (Text → Text) → Text → User → Bool
has_planet sort_key planet_code u = is_text sort_key u.planet_code planet_code

-- What a registration asks for: lengths, plain characters, a repeated password, and an account name
-- and a planet code that no row has.
abbrev pub IsAcceptable : (Text → Text) → Text → Text → Text → Text → List User → Type 0
IsAcceptable sort_key account password check_password planet_code rows =
    (4 ≤ length account)
    × (8 ≤ length password)
    × (length planet_code ≤ 5)
    × (check_special_character account ≡ false)
    × (password ≡ check_password)
    × (select (has_account sort_key account) rows ≡ [])
    × (select (has_planet sort_key planet_code) rows ≡ [])

pub select-append :
    {A : Type 0} (p : A → Bool) (xs ys : List A) → select p (xs ++ ys) ≡ select p xs ++ select p ys
select-append p [] ys = refl
select-append p (x ∷ xs) ys = elim (Bool-cases (p x)) [
  | inl hit ↦ rw (hit, select-append p xs ys) refl
  | inr miss ↦ rw (miss, select-append p xs ys) refl
]

pub is_nil-false : {A : Type 0} (n : ℕ) (xs : List A) → suc n ≤ length xs → is_nil xs ≡ false
is_nil-false n [] h = absurd (omega arith)
is_nil-false n (x ∷ xs) h = refl

module _ (sort_key : Text → Text) (account password check_password planet_code : Text)
    (rows : List User)
    (fits : IsAcceptable sort_key account password check_password planet_code rows) where
  check_long : 8 ≤ length check_password
  check_long = let (a, p, c, plain, same, n, f) = fits in rw (← same) p

  complete :
      (is_nil account || is_nil password || is_nil check_password || is_nil check_password) ≡ false
  complete =
      rw
        (
          is_nil-false 3 account fits.0,
          is_nil-false 7 password fits.1,
          is_nil-false 7 check_password check_long,
        )
        refl

  strong : (ltb (length password) 8 || ltb (length check_password) 8) ≡ false
  strong = let long = check_long in let p = fits.1 in ground arith

module _ {S Db : Type 0} (sessions : Sessions S) (users : Mapper User Db) (md5 : Text → Text)
    (contract : IsUsers users) (account password check_password planet_code : Text)
    (w : World S Db) where
  abbrev run : Outcome ℤ × World S Db
  run = user_register sessions users md5 account password check_password planet_code w

  abbrev rows_before : List User
  rows_before = users.rows w.db

  -- The request is turned down with a message, and nothing has changed.
  abbrev pub Refused : Type 0
  Refused = (d : Text) × (run ≡ (raised (business (business_with params_error d)), w))

  -- A row with the account, the digest of the password and the code is added under a new id, which
  -- is returned; the session is as it was.
  abbrev pub Opened : Type 0
  Opened =
      (user' r : User) × (run.0 ≡ ok (number_of user'.id))
      × (users.rows run.1.db ≡ rows_before ++ r ∷ [])
      × IsStored (new_account account (md5 password) planet_code) user' r rows_before
      × (run.1.session ≡ w.session)

  -- A text is too long for its column, and the database's exception leaves the call; no row is added.
  abbrev pub NotOpened : Type 0
  NotOpened =
      (has_room (new_account account (md5 password) planet_code) ≡ false)
      × (e : Text) × (run.0 ≡ raised (drogon_db_exception e))
      × (users.rows run.1.db ≡ rows_before)
      × (run.1.session ≡ w.session)

  abbrev pub Fits : Type 0
  Fits = IsAcceptable users.sort_key account password check_password planet_code rows_before

  opened : Fits → Opened ⊎ NotOpened
  unfolding user_register encrypt_pwd
  opened (a, p, c, plain, same, new, free) =
      elim (contract.inserted account (md5 password) planet_code w.db) [
        | inr (narrow, (e, threw, rows_kept)) ↦ inr (
          narrow,
          e,
          rw (filled, short, weak, long, plain, equal, no_account, no_planet, threw) refl,
          rw (filled, short, weak, long, plain, equal, no_account, no_planet, threw) rows_kept,
          rw (filled, short, weak, long, plain, equal, no_account, no_planet, threw) refl,
        )
        | inl (user', r, returned, added, stored) ↦
            (let found_row : users.find_by (has_planet users.sort_key planet_code)
                    (users.insert row w.db).1
                  ≡ (ok (r ∷ []), (users.insert row w.db).1) =
                rw
                  (
                    contract.reads.found _ _,
                    added,
                    select-append (has_planet users.sort_key planet_code) rows_before (r ∷ []),
                    free,
                    stored.planet,
                    text_eq_refl (users.sort_key planet_code),
                  )
                  refl in
              inl (
                user',
                r,
                rw
                    (
                      filled, short, weak, long, plain, equal, no_account, no_planet, returned,
                      found_row,
                    )
                    refl,
                rw
                    (
                      filled, short, weak, long, plain, equal, no_account, no_planet, returned,
                      found_row,
                    )
                    added,
                stored,
                rw
                    (
                      filled, short, weak, long, plain, equal, no_account, no_planet, returned,
                      found_row,
                    )
                    refl,
              ))
      ]
    where
      filled :
          (is_nil account || is_nil password || is_nil check_password || is_nil check_password)
          ≡ false
      filled =
          complete users.sort_key account password check_password planet_code (users.rows w.db)
            (a, p, c, plain, same, new, free)

      short : ltb (length account) 4 ≡ false
      short = ground arith

      weak : (ltb (length password) 8 || ltb (length check_password) 8) ≡ false
      weak =
          strong users.sort_key account password check_password planet_code (users.rows w.db)
            (a, p, c, plain, same, new, free)

      long : ltb 5 (length planet_code) ≡ false
      long = ground arith

      equal : text_eq password check_password ≡ true
      equal = rw (← same) (text_eq_refl password)

      row : User
      row = new_account account (md5 password) planet_code

      no_account : users.find_by (has_account users.sort_key account) w.db ≡ (ok [], w.db)
      no_account = rw (contract.reads.found (has_account users.sort_key account) w.db, new) refl

      no_planet : users.find_by (has_planet users.sort_key planet_code) w.db ≡ (ok [], w.db)
      no_planet = rw (contract.reads.found (has_planet users.sort_key planet_code) w.db, free) refl

  -- What is left to decide when the request itself passes: the account and the code may be taken.
  by_rows :
      (is_nil account || is_nil password || is_nil check_password || is_nil check_password) ≡ false
      → ltb (length account) 4 ≡ false
      → (ltb (length password) 8 || ltb (length check_password) 8) ≡ false
      → ltb 5 (length planet_code) ≡ false
      → check_special_character account ≡ false
      → text_eq password check_password ≡ true
      → (Fits × (Opened ⊎ NotOpened)) ⊎ ((¬ Fits) × Refused)
  unfolding user_register encrypt_pwd
  by_rows filled short weak long plain equal =
      let accounts = contract.reads.found (has_account users.sort_key account) w.db in
      let planets = contract.reads.found (has_planet users.sort_key planet_code) w.db in
      elim (List-cases (select (has_account users.sort_key account) rows_before)) [
        | inr (x, xs, taken) ↦ inr (
          (λ (a, p, c, l, same, none_yet, unused).
              let full : x ∷ xs ≡ [] = sym taken ∙ none_yet in cc),
          (codes "用户账号已存在", rw (filled, short, weak, long, plain, equal, accounts, taken) refl),
        )
        | inl new ↦ elim (List-cases (select (has_planet users.sort_key planet_code) rows_before)) [
          | inr (x, xs, used) ↦ inr (
            (λ (a, p, c, l, same, none_yet, unused).
                let full : x ∷ xs ≡ [] = sym used ∙ unused in cc),
            (
              codes "星球账号已存在",
              rw (filled, short, weak, long, plain, equal, accounts, new, planets, used) refl,
            ),
          )
          | inl free ↦
              (let fits : Fits = (
                ground arith,
                ground arith,
                ground arith,
                plain,
                text_eq_sound password check_password equal,
                new,
                free,
              ) in
                inl (fits, opened fits))
        ]
      ]

  -- Registration decides by its conditions (lengths, plain characters, a repeated password, an unused
  -- account name and planet code): a request that meets them opens an account, unless the account, the
  -- digest or the planet code is longer than its column and the insertion throws, which adds no row;
  -- any other request is refused with a message and changes nothing.
  pub user_register_decides : (Fits × (Opened ⊎ NotOpened)) ⊎ ((¬ Fits) × Refused)
  unfolding user_register encrypt_pwd
  user_register_decides =
      elim (Bool-cases
        (is_nil account || is_nil password || is_nil check_password || is_nil check_password)) [
          | inl blank ↦ inr (
            (λ fits.
                let c =
                  complete users.sort_key account password check_password planet_code
                    (users.rows w.db) fits in
                cc),
            (codes "参数为空", rw blank refl),
          )
          | inr filled ↦ elim (Bool-cases (ltb (length account) 4)) [
            | inl short ↦
                inr ((λ ok_all. ground arith), (codes "用户账号小于4位", rw (filled, short) refl))
            | inr short ↦
                elim (Bool-cases (ltb (length password) 8 || ltb (length check_password) 8)) [
                  | inl weak ↦ inr (
                    (λ fits.
                        let c =
                          strong users.sort_key account password check_password planet_code
                            (users.rows w.db) fits in
                        cc),
                    (codes "用户密码和校验密码小于8位", rw (filled, short, weak) refl),
                  )
                  | inr weak ↦ elim (Bool-cases (ltb 5 (length planet_code))) [
                    | inl long ↦ inr (
                      (λ ok_all. ground arith),
                      (codes "星球编号大于5位", rw (filled, short, weak, long) refl),
                    )
                    | inr long ↦ elim (Bool-cases (check_special_character account)) [
                      | inl odd ↦ inr (
                        (λ (a, p, c, plain, same, n, f). cc),
                        (codes "用户账号中存在特殊字符", rw (filled, short, weak, long, odd) refl),
                      )
                      | inr plain ↦ elim (Bool-cases (text_eq password check_password)) [
                        | inr differ ↦ inr (
                          (λ (a, p, c, plain, same, n, f).
                              let alike : text_eq password check_password ≡ true =
                                rw same (text_eq_refl check_password) in
                              cc),
                          (codes "用户密码和校验密码不同", rw (filled, short, weak, long, plain, differ) refl),
                        )
                        | inl equal ↦ by_rows filled short weak long plain equal
                      ]
                    ]
                  ]
                ]
          ]
        ]
