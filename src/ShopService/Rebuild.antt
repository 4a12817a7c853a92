-- ===== src/ShopService/Rebuild.antt =====
-- A shop that the table has: what queryWithMutex stores is what queryWithPassThrough then answers.
use project_collection.Base.{ℕ, suc, ◌≡◌, refl, ◌∙◌, ap, false, List, [], ◌∷◌, some, none, map}
use project_collection.Base.Int.{ℤ, pos, leb_ℤ}
use project_collection.Base.Text.{Text, text_eq_refl}
use project_collection.Common.{ok}
use project_collection.Redis.{
  Redis, IsRedis, Entry, hash, exists, hget, hmset, expire, del, put, insert_all,
}
use project_collection.Database.{Mapper, IsReader, select}
use project_collection.VoucherOrder.Backing.{World}
use project_collection.Orm.{Row}
use project_collection.Orm.Values.{Reads}
use project_collection.Orm.Laws.{IsReads}
use project_collection.Orm.RoundTrip.{Fits, marked}
use project_collection.Orm.Tables.TbShop
use project_collection.ShopService.{
  cache_shop_key, lock_shop_key, origin_data_key, cache_shop_ttl, value_of_id, is_shop,
  query_shop_cache, in_cache, write_shop_cache, write_found, query_db_by_id, unlock_shop, rebuild,
  mutex_round, query_with_mutex, query_with_pass_through,
}
use project_collection.ShopService.Texts.{Styled}
use project_collection.ShopService.Maps.{IsTexts, lookup-insert_all}
use project_collection.ShopService.Pairs.{ReadsBack, own_text, map_of_shop, pairs_of, read_own}
use project_collection.ShopService.Steps.{
  reply_del, asking, locking_shop, shop_cache_absent, try_lock_free, keys-locked, lock-cache,
}

module _ {Server Db : Type 0} (redis : Redis Server) (shops : Mapper Row Db) (reads : Reads)
    (json : Styled) (answers : IsRedis redis) (finds : IsReader shops) (laws : IsReads reads)
    (texts : IsTexts reads) (id : ℤ) (s : Row) where
  abbrev pairs : List (Text × Text)
  pairs = pairs_of redis shops reads json laws texts s

  -- The entry of a shop, for half a minute.
  abbrev pub shop_entry : Entry
  shop_entry = record { content = hash (insert_all pairs []); expires = some cache_shop_ttl }

  abbrev filled : World Server Db → World Server Db
  filled w = record w { server = (redis.send (hmset (cache_shop_key id) pairs) w.server).1 }

  abbrev timed : World Server Db → World Server Db
  timed w = record w {
    server = (redis.send (expire (cache_shop_key id) cache_shop_ttl) (filled w).server).1;
  }

  keys-filled :
      (w : World Server Db) (j : Text)
      → redis.keys w.server (cache_shop_key id) ≡ none
      → redis.keys (filled w).server j
        ≡ put
            (cache_shop_key id)
            (some (record shop_entry { expires = none }))
            (redis.keys w.server)
            j
  keys-filled w j absent =
      answers.effects (hmset (cache_shop_key id) pairs) w.server j ∙ rw absent refl

  filled_here :
      (w : World Server Db)
      → redis.keys w.server (cache_shop_key id) ≡ none
      → redis.keys (filled w).server (cache_shop_key id)
        ≡ some (record shop_entry { expires = none })
  filled_here w absent =
      keys-filled w (cache_shop_key id) absent ∙ rw (text_eq_refl (cache_shop_key id)) refl

  timed_here :
      (w : World Server Db)
      → redis.keys w.server (cache_shop_key id) ≡ none
      → redis.keys (timed w).server (cache_shop_key id) ≡ some shop_entry
  timed_here w absent =
      answers.effects (expire (cache_shop_key id) cache_shop_ttl) (filled w).server
        (cache_shop_key id)
      ∙ rw (text_eq_refl (cache_shop_key id), filled_here w absent) refl

  found_written :
      (w : World Server Db)
      → redis.keys w.server (cache_shop_key id) ≡ none
      → leb_ℤ (value_of_id s) (pos 0) ≡ false
      → write_found redis shops reads json (cache_shop_key id) s w ≡ (ok s, timed w)
  unfolding write_found write_shop_cache
  found_written w absent big =
      let (m, made) = map_of_shop redis shops reads json laws texts s in
      rw
        (
          big,
          made,
          answers.replies (hmset (cache_shop_key id) pairs) w.server,
          absent,
          answers.string_simple,
          answers.replies (expire (cache_shop_key id) cache_shop_ttl) (filled w).server,
          filled_here w absent,
          answers.int64_integer,
        )
        refl

  abbrev unlocked : World Server Db → World Server Db
  unlocked w = record w { server = (redis.send (del (lock_shop_key id)) (timed w).server).1 }

  rebuilt :
      (w : World Server Db)
      → redis.keys w.server (cache_shop_key id) ≡ none
      → select (is_shop id) (shops.rows w.db) ≡ s ∷ []
      → leb_ℤ (value_of_id s) (pos 0) ≡ false
      → rebuild redis shops reads json id w ≡ (ok s, unlocked w)
  unfolding rebuild query_db_by_id unlock_shop
  rebuilt w absent one big =
      let (n, gone) =
        reply_del redis answers (lock_shop_key id) (redis.keys (timed w).server)
          (redis.keys (timed w).server (lock_shop_key id)) refl in
      rw
        (
          finds.one (is_shop id) w.db s one,
          found_written w absent big,
          answers.replies (del (lock_shop_key id)) (timed w).server,
          gone,
        )
        refl

  unlocked_lock : (w : World Server Db) → redis.keys (unlocked w).server (lock_shop_key id) ≡ none
  unlocked_lock w =
      answers.effects (del (lock_shop_key id)) (timed w).server (lock_shop_key id)
      ∙ rw (text_eq_refl (lock_shop_key id)) refl

  unlocked_cache :
      (w : World Server Db)
      → redis.keys w.server (cache_shop_key id) ≡ none
      → redis.keys (unlocked w).server (cache_shop_key id) ≡ some shop_entry
  unlocked_cache w absent =
      answers.effects (del (lock_shop_key id)) (timed w).server (cache_shop_key id)
      ∙ rw (lock-cache id) (timed_here w absent)

  -- The state behind the look into the cache and the lock.
  abbrev locked : World Server Db → World Server Db
  locked w = locking_shop redis id (asking redis id w)

  locked_absent :
      (w : World Server Db)
      → redis.keys w.server (cache_shop_key id) ≡ none
      → redis.keys w.server (lock_shop_key id) ≡ none
      → redis.keys (locked w).server (cache_shop_key id) ≡ none
  locked_absent w absent free =
      keys-locked redis shops reads json answers id w (cache_shop_key id) free
      ∙ rw (lock-cache id) absent

  query_with_mutex_run :
      (n : ℕ) (w : World Server Db)
      → redis.keys w.server (cache_shop_key id) ≡ none
      → redis.keys w.server (lock_shop_key id) ≡ none
      → select (is_shop id) (shops.rows w.db) ≡ s ∷ []
      → leb_ℤ (value_of_id s) (pos 0) ≡ false
      → query_with_mutex redis shops reads json (suc n) id w ≡ (ok (some s), unlocked (locked w))
  unfolding query_with_mutex mutex_round in_cache
  query_with_mutex_run n w absent free one big =
      rw
        (
          shop_cache_absent redis shops reads json answers id w absent,
          try_lock_free redis shops reads json answers id (asking redis id w)
              (answers.effects (exists (cache_shop_key id)) w.server (lock_shop_key id) ∙ free),
          rebuilt (locked w) (locked_absent w absent free) one big,
        )
        refl

  abbrev looked : World Server Db → World Server Db
  looked w = record w {
    server = (redis.send (hget (cache_shop_key id) origin_data_key) (asking redis id w).server).1;
  }

  pass_through_hit :
      (w : World Server Db)
      → redis.keys w.server (cache_shop_key id) ≡ some shop_entry
      → Fits reads TbShop.columns s
      → ReadsBack json (TbShop.to_json reads s)
      → query_with_pass_through redis shops reads json id w ≡ (ok (map marked s), looked w)
  unfolding query_with_pass_through query_shop_cache in_cache
  pass_through_hit w there h back =
      let (m, made) = map_of_shop redis shops reads json laws texts s in
      let (gs, parsed, built) = read_own redis shops reads json laws s h back in
      rw
        (
          answers.replies (exists (cache_shop_key id)) w.server,
          there,
          answers.int64_integer,
          answers.replies (hget (cache_shop_key id) origin_data_key) (asking redis id w).server,
          answers.effects (exists (cache_shop_key id)) w.server (cache_shop_key id) ∙ there,
          answers.bulk_bulk,
          lookup-insert_all origin_data_key (own_text redis shops reads json laws s) m [],
          parsed,
          built,
        )
        refl

  -- For a shop that the cache does not know, with the lock free and one row of a positive id, whose
  -- values are within the bounds of the columns' kinds, whose dates are read back from their printed
  -- text (a timestamp at midnight is not), and whose JSON text is read back by the parser:
  -- queryWithMutex returns the row, keeps it in the cache for half a minute, leaves the database
  -- alone and gives the lock back. While the entry stands, queryWithPassThrough answers with the same
  -- values, every column marked, whatever the database has become.
  pub query_with_mutex-query_with_pass_through :
      (n : ℕ) (w : World Server Db) (later : Db)
      → redis.keys w.server (cache_shop_key id) ≡ none
      → redis.keys w.server (lock_shop_key id) ≡ none
      → select (is_shop id) (shops.rows w.db) ≡ s ∷ []
      → leb_ℤ (value_of_id s) (pos 0) ≡ false
      → Fits reads TbShop.columns s
      → ReadsBack json (TbShop.to_json reads s)
      → ((query_with_mutex redis shops reads json (suc n) id w).0 ≡ ok (some s))
        × ((query_with_mutex redis shops reads json (suc n) id w).1.db ≡ w.db)
        × (redis.keys
              (query_with_mutex redis shops reads json (suc n) id w).1.server
              (cache_shop_key id)
            ≡ some shop_entry)
        × (redis.keys
              (query_with_mutex redis shops reads json (suc n) id w).1.server
              (lock_shop_key id)
            ≡ none)
        × ((query_with_pass_through redis shops reads json id
              (record (query_with_mutex redis shops reads json (suc n) id w).1 { db = later })).0
            ≡ ok (map marked s))
  query_with_mutex-query_with_pass_through n w later absent free one big h back =
      let kept = unlocked_cache (locked w) (locked_absent w absent free) in
      rw (query_with_mutex_run n w absent free one big) (
        refl,
        refl,
        kept,
        unlocked_lock (locked w),
        ap (λ p. p.0) (pass_through_hit (record (unlocked (locked w)) { db = later }) kept h back),
      )
