-- ===== src/ShopService/Cache.antt =====
-- The cache of `getById`: what a miss stores is what a hit answers, and an update empties it.
use project_collection.Base.{ℕ, ◌≡◌, refl, ◌∙◌, ap, false, List, [], ◌∷◌, Option, some, none, map}
use project_collection.Base.Int.{ℤ, pos, leb_ℤ}
use project_collection.Base.Text.{Text, text_eq_refl}
use project_collection.Common.{ok}
use project_collection.Redis.{
  Redis, IsRedis, Entry, hash, exists, hget, hmset, del, insert_all, lookup,
}
use project_collection.Database.{Mapper, IsReader, select}
use project_collection.VoucherOrder.Backing.{World}
use project_collection.Orm.{Row}
use project_collection.Orm.Values.{Reads, signed}
use project_collection.Orm.Laws.{IsReads}
use project_collection.Orm.RoundTrip.{Fits, marked}
use project_collection.Orm.Tables.TbShop
use project_collection.ShopService.{
  cache_shop_key, origin_data_key, value_of_id, is_shop, cached_shop, parsed_shop, load_shop,
  get_by_id, update,
}
use project_collection.ShopService.Texts.{Styled}
use project_collection.ShopService.Pairs.{ReadsBack, own_text, map_of_shop, pairs_of, read_own}
use project_collection.ShopService.Steps.{reply_del}
use project_collection.ShopService.Maps.{IsTexts, lookup-insert_all}

module _ {Server Db : Type 0} (redis : Redis Server) (shops : Mapper Row Db) (reads : Reads)
    (json : Styled) (answers : IsRedis redis) (finds : IsReader shops) (laws : IsReads reads)
    (texts : IsTexts reads) (id : ℤ) where
  abbrev asked : World Server Db → World Server Db
  asked w = record w { server = (redis.send (exists (cache_shop_key id)) w.server).1 }

  cached_absent :
      (w : World Server Db)
      → redis.keys w.server (cache_shop_key id) ≡ none
      → cached_shop redis shops reads json (cache_shop_key id) w ≡ (ok none, asked w)
  unfolding cached_shop
  cached_absent w absent =
      rw (answers.replies (exists (cache_shop_key id)) w.server, absent, answers.int64_integer) refl

  abbrev looked : World Server Db → World Server Db
  looked w = record w {
    server = (redis.send (hget (cache_shop_key id) origin_data_key) (asked w).server).1;
  }

  still :
      (w : World Server Db) (o : Option Entry)
      → redis.keys w.server (cache_shop_key id) ≡ o
      → redis.keys (asked w).server (cache_shop_key id) ≡ o
  still w o h = answers.effects (exists (cache_shop_key id)) w.server (cache_shop_key id) ∙ h

  cached_present :
      (w : World Server Db) (e : Entry) (m : List (Text × Text)) (t : Text)
      → redis.keys w.server (cache_shop_key id) ≡ some e
      → e.content ≡ hash m
      → lookup origin_data_key m ≡ some t
      → cached_shop redis shops reads json (cache_shop_key id) w
        ≡ parsed_shop redis shops reads json t (looked w)
  unfolding cached_shop
  cached_present w e m t there content original =
      rw
        (
          answers.replies (exists (cache_shop_key id)) w.server,
          there,
          answers.int64_integer,
          answers.replies (hget (cache_shop_key id) origin_data_key) (asked w).server,
          still w (some e) there,
          content,
          answers.bulk_bulk,
          original,
        )
        refl

  abbrev filled : World Server Db → Row → World Server Db
  filled w s = record w {
    server =
        (redis.send (hmset (cache_shop_key id) (pairs_of redis shops reads json laws texts s))
          w.server).1;
  }

  load_lem :
      (w : World Server Db) (s : Row)
      → redis.keys w.server (cache_shop_key id) ≡ none
      → select (is_shop id) (shops.rows w.db) ≡ s ∷ []
      → leb_ℤ (value_of_id s) (pos 0) ≡ false
      → load_shop redis shops reads json id w ≡ (ok s, filled w s)
  unfolding load_shop
  load_lem w s absent one big =
      let (m, made) = map_of_shop redis shops reads json laws texts s in
      rw
        (
          finds.one (is_shop id) w.db s one,
          big,
          made,
          answers.replies (hmset (cache_shop_key id) (pairs_of redis shops reads json laws texts s))
              w.server,
          absent,
          answers.string_simple,
        )
        refl

  get_miss :
      (w : World Server Db) (s : Row)
      → leb_ℤ id (pos 0) ≡ false
      → redis.keys w.server (cache_shop_key id) ≡ none
      → select (is_shop id) (shops.rows w.db) ≡ s ∷ []
      → leb_ℤ (value_of_id s) (pos 0) ≡ false
      → get_by_id redis shops reads json id w ≡ (ok s, filled (asked w) s)
  unfolding get_by_id
  get_miss w s good absent one big =
      rw (good, cached_absent w absent, load_lem (asked w) s (still w none absent) one big) refl

  filled_entry :
      (w : World Server Db) (s : Row)
      → redis.keys w.server (cache_shop_key id) ≡ none
      → redis.keys (filled w s).server (cache_shop_key id)
        ≡ some (record {
          content = hash (insert_all (pairs_of redis shops reads json laws texts s) []);
          expires = none;
        })
  filled_entry w s absent =
      answers.effects (hmset (cache_shop_key id) (pairs_of redis shops reads json laws texts s))
        w.server (cache_shop_key id)
      ∙ rw (text_eq_refl (cache_shop_key id), absent) refl

  parse_own :
      (s : Row) (w : World Server Db)
      → Fits reads TbShop.columns s
      → ReadsBack json (TbShop.to_json reads s)
      → parsed_shop redis shops reads json (own_text redis shops reads json laws s) w
        ≡ (ok (some (map marked s)), w)
  unfolding parsed_shop
  parse_own s w h back =
      let (gs, parsed, built) = read_own redis shops reads json laws s h back in
      rw (parsed, built) refl

  get_hit :
      (w : World Server Db) (s : Row) (e : Entry)
      → leb_ℤ id (pos 0) ≡ false
      → redis.keys w.server (cache_shop_key id) ≡ some e
      → e.content ≡ hash (insert_all (pairs_of redis shops reads json laws texts s) [])
      → Fits reads TbShop.columns s
      → ReadsBack json (TbShop.to_json reads s)
      → get_by_id redis shops reads json id w ≡ (ok (map marked s), looked w)
  unfolding get_by_id
  get_hit w s e good there content h back =
      let (m, made) = map_of_shop redis shops reads json laws texts s in
      rw
        (
          good,
          cached_present w e (insert_all (pairs_of redis shops reads json laws texts s) [])
              (own_text redis shops reads json laws s) there content
              (lookup-insert_all origin_data_key (own_text redis shops reads json laws s) m []),
          parse_own s (looked w) h back,
        )
        refl

  -- For a positive id that the cache does not know, with one row of that id: `getById` returns the
  -- row and leaves the database alone; a later call, whatever the database has become, returns the
  -- same values with every column marked and does not change the database.
  pub get_by_id-get_by_id :
      (w : World Server Db) (s : Row) (later : Db)
      → leb_ℤ id (pos 0) ≡ false
      → redis.keys w.server (cache_shop_key id) ≡ none
      → select (is_shop id) (shops.rows w.db) ≡ s ∷ []
      → leb_ℤ (value_of_id s) (pos 0) ≡ false
      → Fits reads TbShop.columns s
      → ReadsBack json (TbShop.to_json reads s)
      → ((get_by_id redis shops reads json id w).0 ≡ ok s)
        × ((get_by_id redis shops reads json id w).1.db ≡ w.db)
        × ((get_by_id redis shops reads json id
              (record (get_by_id redis shops reads json id w).1 { db = later })).0
            ≡ ok (map marked s))
        × ((get_by_id redis shops reads json id
              (record (get_by_id redis shops reads json id w).1 { db = later })).1.db
            ≡ later)
  get_by_id-get_by_id w s later good absent one big h back =
      let again =
        get_hit (record (filled (asked w) s) { db = later }) s
          (record {
            content = hash (insert_all (pairs_of redis shops reads json laws texts s) []);
            expires = none;
          })
          good (filled_entry (asked w) s (still w none absent)) refl h back in
      rw (get_miss w s good absent one big)
        (refl, refl, ap (λ p. p.0) again, ap (λ p. p.1.db) again)

  abbrev emptied : World Server Db → Row → World Server Db
  emptied w s = record {
    server = (redis.send (del (cache_shop_key id)) w.server).1;
    db = (shops.update s w.db).1;
  }

  updated :
      (w : World Server Db) (s : Row) (n : ℕ)
      → signed 9223372036854775808 18446744073709551616 (value_of_id s) ≡ id
      → leb_ℤ id (pos 0) ≡ false
      → (shops.update s w.db).0 ≡ ok n
      → update redis shops reads json s w ≡ (ok (pos 0), emptied w s)
  unfolding update
  updated w s n same good done =
      let (count, read) =
        reply_del redis answers (cache_shop_key id) (redis.keys w.server)
          (redis.keys w.server (cache_shop_key id)) refl in
      rw (same, good, done, answers.replies (del (cache_shop_key id)) w.server, read) refl

  emptied_key :
      (w : World Server Db) (s : Row) → redis.keys (emptied w s).server (cache_shop_key id) ≡ none
  emptied_key w s =
      answers.effects (del (cache_shop_key id)) w.server (cache_shop_key id)
      ∙ rw (text_eq_refl (cache_shop_key id)) refl

  -- An update of a positive id that the database carries out takes the shop out of the cache: the next
  -- `getById` returns the row that the table has after the update.
  pub update-get_by_id :
      (w : World Server Db) (s changed : Row) (n : ℕ)
      → signed 9223372036854775808 18446744073709551616 (value_of_id s) ≡ id
      → leb_ℤ id (pos 0) ≡ false
      → (shops.update s w.db).0 ≡ ok n
      → select (is_shop id) (shops.rows (shops.update s w.db).1) ≡ changed ∷ []
      → leb_ℤ (value_of_id changed) (pos 0) ≡ false
      → ((update redis shops reads json s w).0 ≡ ok (pos 0))
        × ((get_by_id redis shops reads json id (update redis shops reads json s w).1).0
            ≡ ok changed)
        × ((get_by_id redis shops reads json id (update redis shops reads json s w).1).1.db
            ≡ (shops.update s w.db).1)
  unfolding update
  update-get_by_id w s changed n same good done one big =
      let miss = get_miss (emptied w s) changed good (emptied_key w s) one big in
      rw (updated w s n same good done) (refl, ap (λ p. p.0) miss, ap (λ p. p.1.db) miss)
