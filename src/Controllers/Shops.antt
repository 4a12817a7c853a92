-- ===== src/Controllers/Shops.antt =====
-- source/controllers/ShopController.cc, from the parsed request to the JSON answer. queryShopByName
-- has an empty body.
use project_collection.Base.{ℕ, ◌≡◌, refl, false, Option, some, none, [], ◌∷◌}
use project_collection.Base.Int.{ℤ, pos, leb_ℤ}
use project_collection.Common.{
  Outcome, ok, raised, Action, pure, handle, continue, try_catch, ◌>>=◌, business, redis_exception,
  drogon_db_exception, data_exception, std_exception, Json, null, int, obj, respond,
  make_success_json,
}
use project_collection.Redis.{Redis, IsRedis, lift}
use project_collection.Database.{Mapper, IsReader, select}
use project_collection.VoucherOrder.Backing.{World}
use project_collection.Orm.{Row}
use project_collection.Orm.Values.{Reads, signed}
use project_collection.Orm.Laws.{IsReads}
use project_collection.Orm.Tables.TbShop
use project_collection.ShopService.{
  query_by_id, default, get_by_id, save, update, value_of_id, is_shop,
}
use project_collection.ShopService.Texts.{Styled, tb_shop_of}
use project_collection.ShopService.Maps.{IsTexts}
use project_collection.ShopService.Cache.{update-get_by_id}
use project_collection.Controllers.{answer_error, client_answer}
use project_collection.Controllers.Answers.{outcome_answer}

abbrev pub shop_json : Reads → Row → Json
shop_json reads s = obj (TbShop.to_json reads s)

-- No value comes only for other cache types than the one that is asked for.
abbrev found_json : Reads → Option Row → Json
found_json reads none = null
found_json reads (some s) = shop_json reads s

module _ {Server Db : Type 0} (redis : Redis Server) (shops : Mapper Row Db) (reads : Reads)
    (json : Styled) where
  unfoldable pub query_shop_by_id : ℤ → Action (World Server Db) Json
  query_shop_by_id shop_id =
      try_catch
        (do
          tb_shop ← query_by_id redis shops reads json 0 shop_id default
          pure (make_success_json (found_json reads) tb_shop))
        answer_error

  unfoldable pub save_shop : Json → Action (World Server Db) Json
  save_shop body =
      try_catch
        (do
          shop ← lift (tb_shop_of reads body)
          res ← save redis shops reads json shop
          pure (make_success_json int res))
        answer_error

  unfoldable pub update_shop : Json → Action (World Server Db) Json
  update_shop body =
      try_catch
        (do
          shop ← lift (tb_shop_of reads body)
          res ← update redis shops reads json shop
          pure (make_success_json int res))
        answer_error

-- An answer leaves the state of the service's call.
answer_state :
    {W T : Type 0} (f : T → Json) (p : Outcome T × W)
    → (handle answer_error (continue p λ t. pure (make_success_json f t))).1 ≡ p.1
answer_state f (ok t, w) = refl
answer_state f (raised (business e), w) = refl
answer_state f (raised (redis_exception m), w) = refl
answer_state f (raised (drogon_db_exception m), w) = refl
answer_state f (raised (data_exception name m), w) = refl
answer_state f (raised (std_exception m), w) = refl

module _ {Server Db : Type 0} (redis : Redis Server) (shops : Mapper Row Db) (reads : Reads)
    (json : Styled) where
  -- The client of a query receives the shop, or the error that getById threw.
  found_answer :
      (p : Outcome Row × World Server Db)
      → client_answer
          (handle answer_error (
            continue
              (continue p λ s. pure (some s))
              λ o. pure (make_success_json (found_json reads) o))).0
        ≡ respond (shop_json reads) p.0
  unfolding client_answer respond make_success_json
  found_answer (ok s, w) = refl
  found_answer (raised (business e), w) = refl
  found_answer (raised (redis_exception m), w) = refl
  found_answer (raised (drogon_db_exception m), w) = refl
  found_answer (raised (data_exception name m), w) = refl
  found_answer (raised (std_exception m), w) = refl

  query_shop_by_id_lem :
      (id : ℤ) (w : World Server Db)
      → client_answer (query_shop_by_id redis shops reads json id w).0
        ≡ respond (shop_json reads) (get_by_id redis shops reads json id w).0
  unfolding query_shop_by_id query_by_id
  query_shop_by_id_lem id w = found_answer (get_by_id redis shops reads json id w)

  -- After a request to update a shop of a positive id, which the database carries out, the client
  -- receives 0 with code 0, and the next request for the shop is answered with the row that the table
  -- has after the update.
  pub update_shop-query_shop_by_id :
      (answers : IsRedis redis) (finds : IsReader shops) (laws : IsReads reads)
      (texts : IsTexts reads) (id : ℤ) (w : World Server Db) (body : Json) (s changed : Row) (n : ℕ)
      → tb_shop_of reads body ≡ ok s
      → signed 9223372036854775808 18446744073709551616 (value_of_id s) ≡ id
      → leb_ℤ id (pos 0) ≡ false
      → (shops.update s w.db).0 ≡ ok n
      → select (is_shop id) (shops.rows (shops.update s w.db).1) ≡ changed ∷ []
      → leb_ℤ (value_of_id changed) (pos 0) ≡ false
      → (client_answer (update_shop redis shops reads json body w).0
          ≡ make_success_json int (pos 0))
        × (client_answer
              (query_shop_by_id redis shops reads json id
                (update_shop redis shops reads json body w).1).0
            ≡ make_success_json (shop_json reads) changed)
  unfolding update_shop respond
  update_shop-query_shop_by_id answers finds laws texts id w body s changed n read same good done
        one big =
      let (updated, found, kept) =
        update-get_by_id redis shops reads json answers finds laws texts id w s changed n same good
          done one big in
      (
        rw (read, outcome_answer int (update redis shops reads json s w), updated) refl,
        rw
            (
              read,
              answer_state int (update redis shops reads json s w),
              query_shop_by_id_lem id (update redis shops reads json s w).1,
              found,
            )
            refl,
      )
