-- ===== src/Util/Strings/Tests.antt =====
-- Trimming concrete texts.
use project_collection.Base.{◌≡◌, refl}
use project_collection.Base.Text.{codes}
use project_collection.Util.Strings.{find_last_not_of, trim_right}

lost : trim_right (codes "ab  ") (codes " ") ≡ codes "a"
unfolding trim_right find_last_not_of codes
lost = refl
