-- ===== src/ShopService/Missing.antt =====
-- A shop that the table does not have, in the two strategies that should keep its requests from the
-- database.
use project_collection.Base.{ℕ, suc, ◌≡◌, ◌≢◌, refl, ◌∙◌, ◌++◌, some, none, length}
use project_collection.Base.Int.{ℤ}
use project_collection.Base.Text.{Text, codes}
use project_collection.Common.{raised, Exception, business, business_with, db_error}
use project_collection.Redis.{Redis, IsRedis, exists, put}
use project_collection.Database.{Mapper, IsReader, select}
use project_collection.VoucherOrder.Backing.{World}
use project_collection.Orm.{Row}
use project_collection.Orm.Values.{Reads}
use project_collection.ShopService.{
  cache_shop_key, lock_shop_key, is_shop, in_cache, query_db_by_id, query_with_pass_through,
  rebuild, mutex_round, query_with_mutex,
}
use project_collection.ShopService.Steps.{
  shop_lock, shop_cache_absent, try_lock_free, keys-locked, asking, locking_shop,
}
use project_collection.ShopService.Texts.{Styled}

-- What `queryDbById` makes of the database's exception.
abbrev pub db_failure_of : Text → Exception
db_failure_of m = business (business_with db_error (codes "DrogonDbException:" ++ m))

module _ {Server Db : Type 0} (redis : Redis Server) (shops : Mapper Row Db) (reads : Reads)
    (json : Styled) (answers : IsRedis redis) (finds : IsReader shops) (id : ℤ) where
  query_db_missing :
      (w : World Server Db)
      → length (select (is_shop id) (shops.rows w.db)) ≢ 1
      → (e : Text) × (query_db_by_id redis shops reads json id w ≡ (raised (db_failure_of e), w))
  unfolding query_db_by_id
  query_db_missing w missing =
      let (e, threw) = finds.not_one (is_shop id) w.db missing in (e, rw threw refl)

  -- A shop that neither the cache nor the table has: queryWithPassThrough throws the database's
  -- exception and writes nothing to the cache, not even the empty value, so the next request
  -- goes to the database again.
  pub query_with_pass_through_missing :
      (w : World Server Db)
      → redis.keys w.server (cache_shop_key id) ≡ none
      → length (select (is_shop id) (shops.rows w.db)) ≢ 1
      → (e : Text) × ((query_with_pass_through redis shops reads json id w).0
          ≡ raised (db_failure_of e))
        × ((query_with_pass_through redis shops reads json id w).1.db ≡ w.db)
        × ((j : Text)
            → redis.keys (query_with_pass_through redis shops reads json id w).1.server j
              ≡ redis.keys w.server j)
  unfolding query_with_pass_through in_cache
  query_with_pass_through_missing w absent missing =
      let (e, threw) = query_db_missing (asking redis id w) missing in
      (
        e,
        rw (shop_cache_absent redis shops reads json answers id w absent, threw) refl,
        rw (shop_cache_absent redis shops reads json answers id w absent, threw) refl,
        λ j.
            rw (shop_cache_absent redis shops reads json answers id w absent, threw)
              (answers.effects (exists (cache_shop_key id)) w.server j),
      )

  -- A shop that neither the cache nor the table has, with the lock free: queryWithMutex throws the
  -- database's exception and leaves the lock behind, for its ten seconds; no other key changes.
  pub query_with_mutex_leaks_lock :
      (n : ℕ) (w : World Server Db)
      → redis.keys w.server (cache_shop_key id) ≡ none
      → redis.keys w.server (lock_shop_key id) ≡ none
      → length (select (is_shop id) (shops.rows w.db)) ≢ 1
      → (e : Text) × ((query_with_mutex redis shops reads json (suc n) id w).0
          ≡ raised (db_failure_of e))
        × ((query_with_mutex redis shops reads json (suc n) id w).1.db ≡ w.db)
        × ((j : Text)
            → redis.keys (query_with_mutex redis shops reads json (suc n) id w).1.server j
              ≡ put (lock_shop_key id) (some shop_lock) (redis.keys w.server) j)
  unfolding query_with_mutex mutex_round in_cache rebuild
  query_with_mutex_leaks_lock n w absent free missing =
      let still = answers.effects (exists (cache_shop_key id)) w.server in
      let open_lock = still (lock_shop_key id) ∙ free in
      let (e, threw) = query_db_missing (locking_shop redis id (asking redis id w)) missing in
      let taken = try_lock_free redis shops reads json answers id (asking redis id w) open_lock in
      (
        e,
        rw (shop_cache_absent redis shops reads json answers id w absent, taken, threw) refl,
        rw (shop_cache_absent redis shops reads json answers id w absent, taken, threw) refl,
        λ j.
            rw (shop_cache_absent redis shops reads json answers id w absent, taken, threw)
              (keys-locked redis shops reads json answers id w j free),
      )
