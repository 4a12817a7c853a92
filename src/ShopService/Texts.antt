-- ===== src/ShopService/Texts.antt =====
-- drogon/hmdp-cpp-backend/src/hmdp/source/utils/CommonUtils.cpp: JsonUtils; and what jsoncpp does with
-- texts.
use project_collection.Base.{Bool, List, [], ◌∷◌}
use project_collection.Base.Text.{Text, codes}
use project_collection.Common.{
  Outcome, ok, raised, std_exception, Json, null, str, obj, Fields, end, field, set_member,
}
use project_collection.Orm.{Row}
use project_collection.Orm.Values.{Reads, bind}
use project_collection.Orm.Tables.TbShop

-- `Json::Reader::parse`, with the value that it leaves when it fails, and `toStyledString`.
pub record Styled : Type 0 where
  pub parse : Text → Bool × Json
  pub styled : Json → Text

abbrev set_all : List (Text × Text) → Fields → Fields
set_all [] fs = fs
set_all ((k, v) ∷ m) fs = set_all m (set_member k (str v) fs)

-- `ConvertMapToJson`: an empty map gives null.
unfoldable pub convert_map_to_json : List (Text × Text) → Json
unfolding set_member
convert_map_to_json [] = null
convert_map_to_json (p ∷ m) = obj (set_all (p ∷ m) end)

-- `ConvertJsonToMap`: the key of a member is a text, and a text is not `empty()` even without a
-- character.
unfoldable pub convert_json_to_map : Reads → Fields → Outcome (List (Text × Text))
convert_json_to_map r end = ok []
convert_json_to_map r (field k v fs) =
    bind (r.as_string v) λ t. bind (convert_json_to_map r fs) λ m. ok ((k, t) ∷ m)

-- The constructor of TbShop, on any value: `isMember` is only for objects and null.
unfoldable pub tb_shop_of : Reads → Json → Outcome Row
unfolding TbShop.of_json
tb_shop_of r (obj fs) = TbShop.of_json r fs
tb_shop_of r null = TbShop.of_json r end
tb_shop_of r _ = raised (std_exception (codes "requires objectValue or nullValue"))
