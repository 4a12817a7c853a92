-- ===== src/Util/Patterns/Tests.antt =====
-- The checks on concrete texts.
use project_collection.Base.{◌≡◌, refl, ◌↔◌, true, false}
use project_collection.Base.Text.{codes}
use project_collection.Util.Regex.{regex_match}
use project_collection.Util.Patterns.{email_regex, is_phone_invalid, is_email_invalid}
use project_collection.Util.Patterns.Meaning.{IsPhone, is_phone_invalid_lem}

emails :
    (is_email_invalid (codes "a_b@x.org.cn") ≡ true)
    × (is_email_invalid (codes "ab@x") ≡ false)
    × (is_email_invalid (codes "a b@x.org") ≡ false)
unfolding is_email_invalid email_regex regex_match codes
emails = (refl, refl, refl)

is_phone_invalid_lem_example :
    (is_phone_invalid (codes "13512345678") ≡ true) ↔ IsPhone (codes "13512345678")
is_phone_invalid_lem_example = is_phone_invalid_lem (codes "13512345678")
