-- ===== src/ShopService/Pairs.antt =====
-- What is cached for a shop, and what it is read as.
use project_collection.Base.{◌≡◌, ◌∙◌, true, List, [], ◌∷◌, ◌++◌, map, arith}
use project_collection.Base.Text.{Text, codes, text_eq}
use project_collection.Common.{ok, obj, Fields, is_member, member}
use project_collection.Redis.{Redis}
use project_collection.Database.{Mapper}
use project_collection.Orm.{Row}
use project_collection.Orm.Values.{Reads}
use project_collection.Orm.Laws.{IsReads}
use project_collection.Orm.RoundTrip.{Fits, marked, of_json-to_json}
use project_collection.Orm.Classes.{shop, columns_of-IsDistinct}
use project_collection.Orm.Tables.TbShop
use project_collection.ShopService.{origin_data_key, shop_map}
use project_collection.ShopService.Texts.{Styled, tb_shop_of}
use project_collection.ShopService.Maps.{
  IsTexts, Lacks, is_member-to_json, convert_json_to_map-set_member, to_json-AreScalars,
  of_json_members,
}

-- The text of an object reads back as an object with the same members, as it does for texts in UTF-8
-- and finite numbers.
abbrev pub ReadsBack : Styled → Fields → Type 0
ReadsBack json fs =
    (gs : Fields) × (json.parse (json.styled (obj fs)) ≡ (true, obj gs))
    × ((k : Text) → is_member k gs ≡ is_member k fs)
    × ((k : Text) → member k gs ≡ member k fs)

pub no_origin : Lacks origin_data_key TbShop.columns
unfolding TbShop.columns codes text_eq
no_origin = ground arith

module _ {Server Db : Type 0} (redis : Redis Server) (shops : Mapper Row Db) (reads : Reads)
    (json : Styled) (laws : IsReads reads) where
  abbrev pub own_text : Row → Text
  own_text s = json.styled (obj (TbShop.to_json reads s))

  -- The map of a shop has the shop's text under the key of the original data.
  pub map_of_shop :
      (texts : IsTexts reads) (s : Row)
      → (m : List (Text × Text)) × (shop_map redis shops reads json origin_data_key s
          ≡ ok (m ++ (origin_data_key, own_text s) ∷ []))
  unfolding shop_map TbShop.to_json
  map_of_shop texts s =
      let (m, whole, made) =
        convert_json_to_map-set_member reads origin_data_key (own_text s) (TbShop.to_json reads s)
          laws texts (is_member-to_json reads origin_data_key TbShop.columns s no_origin)
          (to_json-AreScalars reads TbShop.columns s) in
      (m, made)

  -- The pairs that are cached for a shop.
  abbrev pub pairs_of : IsTexts reads → Row → List (Text × Text)
  pairs_of texts s = let (m, made) = map_of_shop texts s in m ++ (origin_data_key, own_text s) ∷ []

  -- The cached text of a shop is read as the shop, with every column marked.
  pub read_own :
      (s : Row)
      → Fits reads TbShop.columns s
      → ReadsBack json (TbShop.to_json reads s)
      → (gs : Fields) × (json.parse (own_text s) ≡ (true, obj gs))
        × (tb_shop_of reads (obj gs) ≡ ok (map marked s))
  unfolding tb_shop_of TbShop.of_json TbShop.to_json
  read_own s h back =
      let (gs, parsed, there, same) = back in
      (
        gs,
        parsed,
        of_json_members reads TbShop.columns (TbShop.to_json reads s) gs there same
            ∙ of_json-to_json reads laws TbShop.columns s (columns_of-IsDistinct shop) h,
      )
