-- ===== src/UserService/Dto.antt =====
-- source/dto/UserDTO.cpp: what of a user is kept in Redis under the login token.
use project_collection.Base.{
  ℕ, suc, ◌-◌, ◌%◌, ◌≡◌, refl, Bool, true, false, ◌&&◌, ◌||◌, ◌==◌, List, [], ◌∷◌, arith,
  if◌then◌else◌,
}
use project_collection.Base.Int.{ℤ, pos, negsuc, leb_ℤ}
use project_collection.Base.Text.{
  Text, codes, text_eq, atol, to_string, is_space, is_digit, atol-to_string, digits_head,
}
use project_collection.Common.{ok, Action, pure, raise, ◌>>=◌, std_exception}
use project_collection.Redis.{lookup}
use project_collection.Models.{TbUser, number_of, text_of}

-- `stol` finds a digit behind white space and a sign.
abbrev has_digit : Text → Bool
has_digit [] = false
has_digit (c ∷ s) = is_digit c

abbrev is_signed : Text → Bool
is_signed [] = false
is_signed (c ∷ s) = if (c == b'-') || (c == b'+') then has_digit s else is_digit c

abbrev pub is_numeral : Text → Bool
is_numeral [] = false
is_numeral (c ∷ s) = let rest = is_numeral s in if is_space c then rest else is_signed (c ∷ s)

-- A `long` has 64 bits.
abbrev pub in_long : ℤ → Bool
in_long z = leb_ℤ (negsuc 9223372036854775807) z && leb_ℤ z (pos 9223372036854775807)

-- `stol` throws an `invalid_argument` or an `out_of_range`, whose texts name the function.
abbrev pub stol : {W : Type 0} → Text → Action W ℤ
stol t =
    if is_numeral t && in_long (atol t) then pure (atol t) else raise (std_exception (codes "stol"))

-- A map is the list of its pairs by key.
pub record UserDto : Type 0 where
  pub id : ℤ
  pub nick_name : Text
  pub icon : Text
  pub user_dto : List (Text × Text)

-- `UserDTO(TbUser *)`
unfoldable pub dto_of_user : TbUser → UserDto
dto_of_user u = record {
  id = number_of u.id;
  nick_name = text_of u.nick_name;
  icon = text_of u.icon;
  user_dto =
      (codes "icon", text_of u.icon)
      ∷ (codes "id", to_string (number_of u.id))
      ∷ (codes "nickName", text_of u.nick_name)
      ∷ [];
}

-- `userDto["id"] = id` assigns a `long` to a text: the text is the one byte that it converts to.
abbrev low_byte : ℤ → ℕ
low_byte (pos n) = n % 256
low_byte (negsuc n) = 255 - n % 256

-- `UserDTO(std::map)`: a field that is missing reads as the empty text.
unfoldable pub dto_of_map : {W : Type 0} → List (Text × Text) → Action W UserDto
dto_of_map m = stol (text_of (lookup (codes "id") m)) >>= λ id. pure (record {
  id = id;
  nick_name = text_of (lookup (codes "nickName") m);
  icon = text_of (lookup (codes "icon") m);
  user_dto =
      (codes "icon", text_of (lookup (codes "icon") m))
      ∷ (codes "id", low_byte id ∷ [])
      ∷ (codes "nickName", text_of (lookup (codes "nickName") m))
      ∷ [];
})

-- `stol` reads what `to_string` prints of a `long`.
numeral-to_string : (z : ℤ) → is_numeral (to_string z) ≡ true
unfolding to_string
numeral-to_string (pos n) = let (c, s, e, d) = digits_head n in rw e (ground arith)
numeral-to_string (negsuc n) = let (c, s, e, d) = digits_head (suc n) in rw e (ground arith)

pub stol-to_string :
    {W : Type 0} (z : ℤ) (w : W) → in_long z ≡ true → stol (to_string z) w ≡ (ok z, w)
stol-to_string z w h = rw (numeral-to_string z, atol-to_string z, h) refl

-- A user's data come back from the map that is stored for it.
pub dto_of_map-dto_of_user :
    {W : Type 0} (u : TbUser) (w : W)
    → in_long (number_of u.id) ≡ true
    → (d : UserDto) × (dto_of_map (dto_of_user u).user_dto w ≡ (ok d, w))
      × (d.id ≡ number_of u.id)
      × (d.nick_name ≡ text_of u.nick_name)
      × (d.icon ≡ text_of u.icon)
unfolding dto_of_map dto_of_user text_eq codes
dto_of_map-dto_of_user u w h = (
  record {
    id = number_of u.id;
    nick_name = text_of u.nick_name;
    icon = text_of u.icon;
    user_dto =
        (codes "icon", text_of u.icon)
        ∷ (codes "id", low_byte (number_of u.id) ∷ [])
        ∷ (codes "nickName", text_of u.nick_name)
        ∷ [];
  },
  rw (stol-to_string (number_of u.id) w h) refl,
  refl,
  refl,
  refl,
)
