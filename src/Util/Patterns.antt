-- ===== src/Util/Patterns.antt =====
-- source/constants/RegexPatterns.cpp and source/utils/RegexUtils.cpp.
pub mod Meaning
mod Tests
use project_collection.Base.{ℕ, Bool, ◌||◌, ◌&&◌, ◌==◌, leb}
use project_collection.Base.Text.{Text, is_digit}
use project_collection.Util.Regex.{Regex, one_of, seq, alt, between, plus, regex_match}

abbrev pub char : ℕ → Regex
char c = one_of λ d. d == c

abbrev pub is_letter : ℕ → Bool
is_letter c = (leb b'a' c && leb c b'z') || (leb b'A' c && leb c b'Z')

-- \w
abbrev pub is_word : ℕ → Bool
is_word c = is_letter c || is_digit c || (c == b'_')

-- [a-zA-Z0-9_-]
abbrev pub is_address : ℕ → Bool
is_address c = is_letter c || is_digit c || (c == b'_') || (c == b'-')

-- [a-zA-Z\d]
abbrev pub is_alphanumeric : ℕ → Bool
is_alphanumeric c = is_letter c || is_digit c

-- ^1(3|5|8)\d{9}$
unfoldable pub phone_regex : Regex
phone_regex =
    seq (char b'1')
      (seq (alt (char b'3') (alt (char b'5') (char b'8'))) (between 9 0 (one_of is_digit)))

-- ^[a-zA-Z0-9_-]+@[a-zA-Z0-9_-]+(\.[a-zA-Z0-9_-]+)+$
unfoldable pub email_regex : Regex
email_regex = seq (plus (one_of is_address)) (
    seq (char b'@')
      (seq (plus (one_of is_address)) (plus (seq (char b'.') (plus (one_of is_address))))))

-- ^\w{4,32}$
unfoldable pub password_regex : Regex
password_regex = between 4 28 (one_of is_word)

-- ^[a-zA-Z\d]{6}$
unfoldable pub verify_code_regex : Regex
verify_code_regex = between 6 0 (one_of is_alphanumeric)

unfoldable pub is_phone_invalid : Text → Bool
is_phone_invalid phone = regex_match phone_regex phone

unfoldable pub is_email_invalid : Text → Bool
is_email_invalid email = regex_match email_regex email

unfoldable pub is_password_invalid : Text → Bool
is_password_invalid password = regex_match password_regex password

unfoldable pub is_verify_code_invalid : Text → Bool
is_verify_code_invalid verify_code = regex_match verify_code_regex verify_code
