-- ===== src/UserService/Token.antt =====
-- The login token: what `login` stores under it and what `getCurrent` reads.
use project_collection.Base.{
  ℕ, ◌≡◌, ◌≢◌, refl, true, false, ◌==◌, [], ◌∷◌, none, some, arith, length,
}
use project_collection.Base.Text.{Text, codes, text_eq}
use project_collection.Common.{ok, raised, std_exception}
use project_collection.Redis.{Redis, IsRedis, Entry, hash, expire, hgetall}
use project_collection.Models.{TbUser, no_user, number_of, text_of}
use project_collection.Database.{Mapper}
use project_collection.VoucherOrder.Backing.{World}
use project_collection.UserService.{login_user_key, login_user_ttl, get_safety_user, get_current}
use project_collection.UserService.Dto.{dto_of_user, dto_of_map, in_long, stol-to_string}

-- The entry that a login leaves under its token.
abbrev pub token_entry : TbUser → Entry
token_entry u = record {
  content = hash (dto_of_user (get_safety_user u)).user_dto;
  expires = some login_user_ttl;
}

-- What `getCurrent` knows of a user.
abbrev pub known_user : TbUser → TbUser
known_user u = record no_user {
  id = some (number_of u.id);
  nick_name = some (text_of u.nick_name);
  icon = some (text_of u.icon);
}

filled : (t : Text) → t ≢ [] → (length t == 0) ≡ false
filled [] h = absurd (h refl)
filled (c ∷ t) h = ground arith

module _ {Server Db : Type 0} (redis : Redis Server) (users : Mapper TbUser Db) (rand : ℕ → ℕ → ℕ)
    (answers : IsRedis redis) (token : Text) (w : World Server Db) where
  -- A token that Redis does not know is not answered with a message: `getCurrent` throws what `get`
  -- throws for an index out of range, and no handler of the service or the controllers names it.
  pub get_current_unknown_token :
      token ≢ []
      → redis.keys w.server (login_user_key token) ≡ none
      → (get_current redis users rand token w).0 ≡ raised (std_exception (codes "Invalid argument"))
  unfolding get_current
  get_current_unknown_token given unknown =
      rw
        (
          filled token given,
          answers.replies (hgetall (login_user_key token)) w.server,
          unknown,
          answers.array_array,
        )
        refl

  -- Under a token that a login stored, `getCurrent` finds the user.
  pub get_current_known :
      (u : TbUser)
      → token ≢ []
      → redis.keys w.server (login_user_key token) ≡ some (token_entry u)
      → in_long (number_of u.id) ≡ true
      → (get_current redis users rand token w).0 ≡ ok (known_user u)
  unfolding get_current get_safety_user dto_of_user dto_of_map text_eq codes
  get_current_known u given stored small =
      rw
        (
          filled token given,
          answers.replies (hgetall (login_user_key token)) w.server,
          stored,
          answers.array_array,
          stol-to_string (number_of u.id) after_read small,
          answers.replies (expire (login_user_key token) login_user_ttl) after_read.server,
          answers.effects (hgetall (login_user_key token)) w.server (login_user_key token),
          stored,
          answers.int64_integer,
        )
        refl
    where
      after_read : World Server Db
      after_read = record w { server = (redis.send (hgetall (login_user_key token)) w.server).1 }
