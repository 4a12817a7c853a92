-- ===== src/UserService/Login.antt =====
-- Login by a code: what it asks for, and that its token leads back to the user.
use project_collection.Base.{
  ℕ, ◌≡◌, ◌≢◌, refl, ◌∙◌, true, List, [], ◌∷◌, none, some, ◌⊎◌, inl, inr, Bool-cases, Option-cases,
}
use project_collection.Base.Text.{Text, codes, text_eq, text_eq_refl, text_eq_sound}
use project_collection.Common.{Outcome, ok}
use project_collection.Redis.{
  Redis, Command, IsRedis, Entry, Content, string, hash, put, get, set, hmset, expire,
}
use project_collection.Models.{TbUser, number_of, is_text}
use project_collection.Database.{Mapper, IsReader, select}
use project_collection.Util.Random.{get_random_number_str}
use project_collection.Util.Patterns.{is_phone_invalid}
use project_collection.VoucherOrder.Backing.{World}
use project_collection.UserService.{
  login_user_key, login_code_ttl, login_user_ttl, get_safety_user, send_code, login, get_current,
}
use project_collection.UserService.Dto.{dto_of_user, in_long}
use project_collection.UserService.Token.{token_entry, known_user, get_current_known}

-- The entry that `sendCode` writes.
abbrev pub code_entry : Text → Entry
code_entry code = record { content = string code; expires = some login_code_ttl }

module _ {Server Db : Type 0} (redis : Redis Server) (users : Mapper TbUser Db) (rand : ℕ → ℕ → ℕ)
    (answers : IsRedis redis) (reads : IsReader users) (phone : Text)
    (valid : is_phone_invalid phone ≡ true) (w : World Server Db) where
  -- For a valid phone number `sendCode` returns six digits and keeps them under the number for two
  -- minutes, in place of what was there; the database and the other keys stay as they are.
  pub send_code_stores :
      (seconds : ℕ)
      → ((send_code redis users rand seconds phone w).0 ≡ ok (get_random_number_str rand seconds 6))
        × ((j : Text)
            → redis.keys (send_code redis users rand seconds phone w).1.server j
              ≡ put
                  (login_user_key phone)
                  (some (code_entry (get_random_number_str rand seconds 6)))
                  (redis.keys w.server)
                  j)
        × ((send_code redis users rand seconds phone w).1.db ≡ w.db)
  unfolding send_code
  send_code_stores seconds = (
    rw (valid, answers.replies stores w.server, answers.string_simple) refl,
    (λ j.
        rw (valid, answers.replies stores w.server, answers.string_simple)
          (answers.effects stores w.server j)),
    rw (valid, answers.replies stores w.server, answers.string_simple) refl,
  )
    where
      stores : Command
      stores = set (login_user_key phone) (get_random_number_str rand seconds 6) true login_code_ttl

  module _ (seconds : ℕ) (token code : Text) (u : TbUser) where
    abbrev run : Outcome Text × World Server Db
    run = login redis users rand seconds token phone code w

    -- The code of this phone number is in Redis, the user is the one row of the number, and the
    -- token is new.
    abbrev pub IsReady : Type 0
    IsReady =
        (e : Entry) × (redis.keys w.server (login_user_key phone) ≡ some e)
        × (e.content ≡ string code)
        × (select (λ r. is_text users.sort_key r.phone phone) (users.rows w.db) ≡ u ∷ [])
        × (redis.keys w.server (login_user_key token) ≡ none)

    abbrev asked : Server
    asked = (redis.send (get (login_user_key phone)) w.server).1

    abbrev kept : Command
    kept = hmset (login_user_key token) (dto_of_user (get_safety_user u)).user_dto

    abbrev written : Server
    written = (redis.send kept asked).1

    abbrev timed : Server
    timed = (redis.send (expire (login_user_key token) login_user_ttl) written).1

    token_free : IsReady → redis.keys asked (login_user_key token) ≡ none
    token_free (e, sent, same, one, new) =
        answers.effects (get (login_user_key phone)) w.server (login_user_key token) ∙ new

    token-written :
        IsReady
        → redis.keys written (login_user_key token)
          ≡ some (record (token_entry u) { expires = none })
    unfolding dto_of_user text_eq codes
    token-written ready =
        answers.effects kept asked (login_user_key token)
        ∙ rw (text_eq_refl (login_user_key token), token_free ready) refl

    token-timed : IsReady → redis.keys timed (login_user_key token) ≡ some (token_entry u)
    token-timed ready =
        answers.effects (expire (login_user_key token) login_user_ttl) written
          (login_user_key token)
        ∙ rw (text_eq_refl (login_user_key token), token-written ready) refl

    -- A login of a known user with the right code returns the token and keeps the user under it,
    -- for ten hours.
    login_stores : IsReady → run ≡ (ok token, record w { server = timed })
    unfolding login
    login_stores ready =
        let (e, sent, same, one, new) = ready in
        rw
          (
            valid,
            answers.replies (get (login_user_key phone)) w.server,
            sent,
            same,
            answers.bulk_bulk,
            text_eq_refl code,
            reads.found (λ r. is_text users.sort_key r.phone phone) w.db,
            one,
            answers.replies kept asked,
            token_free ready,
            answers.string_simple,
            answers.replies (expire (login_user_key token) login_user_ttl) written,
            token-written ready,
            answers.int64_integer,
          )
          refl

    -- A login of a known user with the code that was sent returns the token, keeps the user under it
    -- for ten hours and leaves the database alone; `getCurrent` with the token then returns the
    -- user's id, nick name and icon.
    pub login_then_get_current :
        IsReady
        → token ≢ []
        → in_long (number_of u.id) ≡ true
        → (run.0 ≡ ok token)
          × (redis.keys run.1.server (login_user_key token) ≡ some (token_entry u))
          × (run.1.db ≡ w.db)
          × ((get_current redis users rand token run.1).0 ≡ ok (known_user u))
    login_then_get_current ready given small = rw (login_stores ready) (
      refl,
      token-timed ready,
      refl,
      get_current_known redis users rand answers token (record w { server = timed }) u given
          (token-timed ready) small,
    )

Content-cases :
    (c : Content) → ((v : Text) × (c ≡ string v)) ⊎ ((m : List (Text × Text)) × (c ≡ hash m))
Content-cases (string v) = inl (v, refl)
Content-cases (hash m) = inr (m, refl)

module _ {Server Db : Type 0} (redis : Redis Server) (users : Mapper TbUser Db) (rand : ℕ → ℕ → ℕ)
    (answers : IsRedis redis) (phone : Text) (w : World Server Db) (seconds : ℕ)
    (token code : Text) where
  -- The code stands in Redis under the number.
  abbrev pub WasSent : Type 0
  WasSent =
      (e : Entry) × (redis.keys w.server (login_user_key phone) ≡ some e)
      × (e.content ≡ string code)

  -- A login that returns a token was made with a valid phone number and with the code that Redis
  -- holds for it.
  pub login_needs_code :
      (t : Text)
      → (login redis users rand seconds token phone code w).0 ≡ ok t
      → (is_phone_invalid phone ≡ true) × WasSent
  unfolding login
  login_needs_code t returned = elim (Bool-cases (is_phone_invalid phone)) [
    | inr bad ↦ (let threw = rw bad at returned in cc)
    | inl good ↦ elim (Option-cases (redis.keys w.server (login_user_key phone))) [
      | inl missing ↦
          (let threw =
              rw
                (
                  good,
                  answers.replies (get (login_user_key phone)) w.server,
                  missing,
                  answers.bulk_bulk,
                )
                at returned in
            cc)
      | inr (e, there) ↦ elim (Content-cases e.content) [
        | inr (m, table) ↦
            (let threw =
                rw
                  (
                    good,
                    answers.replies (get (login_user_key phone)) w.server,
                    there,
                    table,
                    answers.bulk_error,
                  )
                  at returned in
              cc)
        | inl (v, text) ↦ elim (Bool-cases (text_eq v code)) [
          | inl same ↦ (good, (e, there, rw (← text_eq_sound v code same) text))
          | inr differ ↦
              (let threw =
                  rw
                    (
                      good,
                      answers.replies (get (login_user_key phone)) w.server,
                      there,
                      text,
                      answers.bulk_bulk,
                      differ,
                    )
                    at returned in
                cc)
        ]
      ]
    ]
  ]
