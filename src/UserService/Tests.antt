-- ===== src/UserService/Tests.antt =====
-- A code, a login and a token in memory.
use project_collection.Base.{ℕ, ◌≡◌, refl, true, List, [], ◌∷◌, ◌++◌, none, some}
use project_collection.Base.Int.{pos}
use project_collection.Base.Text.{Text, codes, text_eq}
use project_collection.Common.{ok}
use project_collection.Redis.{Keys, put}
use project_collection.Redis.Memory.{memory, memory-IsRedis}
use project_collection.Models.{TbUser, no_user}
use project_collection.Database.{Mapper}
use project_collection.Database.Memory.{reader, reader-IsReader}
use project_collection.Util.Regex.{regex_match, between}
use project_collection.Util.Patterns.{phone_regex, is_phone_invalid}
use project_collection.VoucherOrder.Backing.{World}
use project_collection.UserService.{login_user_key, login, get_current}
use project_collection.UserService.Token.{token_entry, known_user}
use project_collection.UserService.Login.{
  code_entry, login_then_get_current, WasSent, login_needs_code,
}

abbrev users : Mapper TbUser (List TbUser)
users = reader (λ d. d) (λ u d. (ok u, d ++ u ∷ []))

abbrev sevens : ℕ → ℕ → ℕ
sevens seed i = 7

abbrev number : Text
number = codes "13512345678"

abbrev ann : TbUser
ann = record no_user { id = some (pos 5); phone = some number; nick_name = some (codes "ann") }

abbrev code_sent : World Keys (List TbUser)
code_sent = record {
  server = put (login_user_key number) (some (code_entry (codes "777777"))) (λ k. none);
  db = ann ∷ [];
}

abbrev token : Text
token = codes "c0ffee"

number_valid : is_phone_invalid number ≡ true
unfolding is_phone_invalid phone_regex regex_match between codes
number_valid = refl

enters :
    ((login memory users sevens 9 token number (codes "777777") code_sent).0 ≡ ok token)
    × ((login memory users sevens 9 token number (codes "777777") code_sent).1.server
          (login_user_key token)
        ≡ some (token_entry ann))
    × ((login memory users sevens 9 token number (codes "777777") code_sent).1.db ≡ ann ∷ [])
    × ((get_current memory users sevens token
          (login memory users sevens 9 token number (codes "777777") code_sent).1).0
        ≡ ok (known_user ann))
unfolding codes text_eq
enters =
    login_then_get_current memory users sevens memory-IsRedis
      (reader-IsReader (λ d. d) (λ u d. (ok u, d ++ u ∷ []))) number number_valid code_sent 9 token
      (codes "777777") ann (code_entry (codes "777777"), refl, refl, refl, refl) (λ e. cc) refl

login_then_get_current_example :
    ((login memory users sevens 9 token number (codes "777777") code_sent).0 ≡ ok token)
    × ((login memory users sevens 9 token number (codes "777777") code_sent).1.server
          (login_user_key token)
        ≡ some (token_entry ann))
    × ((login memory users sevens 9 token number (codes "777777") code_sent).1.db ≡ ann ∷ [])
    × ((get_current memory users sevens token
          (login memory users sevens 9 token number (codes "777777") code_sent).1).0
        ≡ ok (known_user ann))
unfolding codes text_eq
login_then_get_current_example =
    login_then_get_current memory users sevens memory-IsRedis
      (reader-IsReader (λ d. d) (λ u d. (ok u, d ++ u ∷ []))) number number_valid code_sent 9 token
      (codes "777777") ann (code_entry (codes "777777"), refl, refl, refl, refl) (λ e. cc) refl

login_needs_code_example :
    (is_phone_invalid number ≡ true)
    × WasSent memory users sevens memory-IsRedis number code_sent 9 token (codes "777777")
login_needs_code_example =
    login_needs_code memory users sevens memory-IsRedis number code_sent 9 token (codes "777777")
      token enters.0
