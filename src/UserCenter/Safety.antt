-- ===== src/UserCenter/Safety.antt =====
-- What an account may show: `getSafetyUser` and `toJson`.
use project_collection.Base.{◌≡◌, refl, none, some, List, [], ◌∷◌, map}
use project_collection.Base.Int.{ℤ}
use project_collection.Base.Text.{Text, codes, text_eq}
use project_collection.Common.{null, get}
use project_collection.Models.{number_of, text_of}
use project_collection.UserCenter.Model.{User, user_to_json}
use project_collection.UserCenter.Service.{get_safety_user}

-- `u` shows the row `r` without its password: its id, its names and its role.
abbrev pub IsSafe : (ℤ → Text) → User → User → Type 0
IsSafe date_text r u =
    (get (codes "userPassword") (user_to_json date_text u) ≡ null)
    × (u.user_password ≡ none)
    × (u.id ≡ some (number_of r.id))
    × (u.username ≡ some (text_of r.username))
    × (u.user_account ≡ some (text_of r.user_account))
    × (u.user_role ≡ some (number_of r.user_role))

-- One account for each row, in their order.
abbrev pub AreSafe : (ℤ → Text) → List User → List User → Type 0
AreSafe date_text [] [] = Unit
AreSafe date_text (r ∷ rows) (u ∷ shown) = IsSafe date_text r u × AreSafe date_text rows shown
AreSafe date_text _ _ = ⊥

pub get_safety_user-IsSafe :
    (date_text : ℤ → Text) (r : User) → IsSafe date_text r (get_safety_user r)
unfolding get user_to_json get_safety_user text_eq codes
get_safety_user-IsSafe date_text r = (refl, refl, refl, refl, refl, refl)

pub map-AreSafe :
    (date_text : ℤ → Text) (rows : List User) → AreSafe date_text rows (map get_safety_user rows)
map-AreSafe date_text [] = tt
map-AreSafe date_text (r ∷ rows) = (get_safety_user-IsSafe date_text r, map-AreSafe date_text rows)
