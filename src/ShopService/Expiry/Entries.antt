-- ===== src/ShopService/Expiry/Entries.antt =====
-- The map that a shop with an expiry is cached as.
use project_collection.Base.{◌≡◌, refl, ◌∙◌, ap, sym, false, List, [], ◌∷◌, ◌++◌, some, arith}
use project_collection.Base.Int.{ℤ}
use project_collection.Base.Text.{Text, codes, text_eq}
use project_collection.Common.{Outcome, ok, raised, str, obj, set_member}
use project_collection.Redis.{lookup, insert_all}
use project_collection.Orm.{Row}
use project_collection.Orm.Values.{Reads}
use project_collection.Orm.Laws.{IsReads}
use project_collection.Orm.Tables.TbShop
use project_collection.ShopService.{origin_data_key}
use project_collection.ShopService.Texts.{Styled, convert_json_to_map}
use project_collection.ShopService.Maps.{
  IsTexts, Lacks, is_member-to_json, convert_json_to_map-set_member, to_json-AreScalars,
  set_member-AreScalars, is_member-set_member, lookup-insert_all, lookup-insert_all_other,
}
use project_collection.ShopService.Pairs.{no_origin}
use project_collection.ShopService.Expiry.{Dates, expire_time_key, to_json_str}

no_expiry : Lacks expire_time_key TbShop.columns
unfolding TbShop.columns codes text_eq
no_expiry = ground arith

origin_expiry : text_eq origin_data_key expire_time_key ≡ false
unfolding codes text_eq
origin_expiry = refl

expiry_origin : text_eq expire_time_key origin_data_key ≡ false
unfolding codes text_eq
expiry_origin = refl

abbrev value_or : {A : Type 0} → A → Outcome A → A
value_or a (ok b) = b
value_or a (raised e) = a

module _ (reads : Reads) (json : Styled) (dates : Dates) (laws : IsReads reads)
    (texts : IsTexts reads) (s : Row) (t : ℤ) where
  abbrev pub shop_text : Text
  shop_text = json.styled (obj (TbShop.to_json reads s))

  abbrev pub time_text : Text
  time_text = json.styled (str (dates.format t))

  -- The members of the shop, its text, and its expiry.
  pub expiring_map :
      (m : List (Text × Text)) × (convert_json_to_map reads (to_json_str reads json dates s t)
        ≡ ok ((m ++ (origin_data_key, shop_text) ∷ []) ++ (expire_time_key, time_text) ∷ []))
  unfolding to_json_str
  expiring_map =
      let plain = to_json-AreScalars reads TbShop.columns s in
      let (m, whole, made) =
        convert_json_to_map-set_member reads origin_data_key shop_text (TbShop.to_json reads s) laws
          texts (is_member-to_json reads origin_data_key TbShop.columns s no_origin) plain in
      let (n, both, timed) =
        convert_json_to_map-set_member reads expire_time_key time_text
          (set_member origin_data_key (str shop_text) (TbShop.to_json reads s)) laws texts
          (is_member-set_member expire_time_key origin_data_key shop_text (TbShop.to_json reads s)
            origin_expiry (is_member-to_json reads expire_time_key TbShop.columns s no_expiry))
          (set_member-AreScalars origin_data_key shop_text (TbShop.to_json reads s) plain) in
      let same : m ++ (origin_data_key, shop_text) ∷ [] ≡ n = ap (value_or []) (sym made ∙ both) in
      (m, rw same timed)

  abbrev pub expiring_pairs : List (Text × Text)
  expiring_pairs =
      (expiring_map.0 ++ (origin_data_key, shop_text) ∷ []) ++ (expire_time_key, time_text) ∷ []

  pub time_found :
      (old : List (Text × Text))
      → lookup expire_time_key (insert_all expiring_pairs old) ≡ some time_text
  time_found old =
      lookup-insert_all expire_time_key time_text
        (expiring_map.0 ++ (origin_data_key, shop_text) ∷ []) old

  pub shop_found :
      (old : List (Text × Text))
      → lookup origin_data_key (insert_all expiring_pairs old) ≡ some shop_text
  shop_found old =
      lookup-insert_all_other origin_data_key expire_time_key time_text
        (expiring_map.0 ++ (origin_data_key, shop_text) ∷ []) old expiry_origin
      ∙ lookup-insert_all origin_data_key shop_text expiring_map.0 old
