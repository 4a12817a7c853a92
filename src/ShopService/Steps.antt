-- ===== src/ShopService/Steps.antt =====
-- The calls of Redis that both strategies make: the look into the cache and the lock.
use project_collection.Base.{◌≡◌, refl, ◌∙◌, ap, true, false, Option, some, none, if◌then◌else◌}
use project_collection.Base.Int.{ℤ, pos}
use project_collection.Base.Text.{Text, codes, text_eq}
use project_collection.Common.{ok, raised, null, std_exception}
use project_collection.Redis.{Redis, IsRedis, Entry, string, exists, set, del, reply, put, bad_cast}
use project_collection.Database.{Mapper}
use project_collection.VoucherOrder.Backing.{World}
use project_collection.Orm.{Row}
use project_collection.Orm.Values.{Reads}
use project_collection.ShopService.{
  cache_shop_key, lock_shop_key, origin_data_key, lock_shop_ttl, query_shop_cache, try_lock_shop,
}
use project_collection.ShopService.Texts.{Styled}

abbrev pub shop_lock : Entry
shop_lock = record { content = string (codes "1"); expires = some lock_shop_ttl }

pub lock-cache : (id : ℤ) → text_eq (lock_shop_key id) (cache_shop_key id) ≡ false
unfolding codes text_eq
lock-cache id = refl

pub reply_del :
    {Server : Type 0} (redis : Redis Server) (answers : IsRedis redis) (key : Text)
    (keys : Text → Option Entry) (o : Option Entry)
    → keys key ≡ o
    → (n : ℤ) × (redis.read_int64 (reply keys (del key)) ≡ ok n)
reply_del redis answers key keys none h = (pos 0, rw (h, answers.int64_integer) refl)
reply_del redis answers key keys (some e) h = (pos 1, rw (h, answers.int64_integer) refl)

-- After the look into the cache, and after the try for the lock.
module _ {Server Db : Type 0} (redis : Redis Server) (id : ℤ) where
  abbrev pub asking : World Server Db → World Server Db
  asking w = record w { server = (redis.send (exists (cache_shop_key id)) w.server).1 }

  abbrev pub locking_shop : World Server Db → World Server Db
  locking_shop w = record w {
    server = (redis.send (set (lock_shop_key id) (codes "1") false lock_shop_ttl) w.server).1;
  }

module _ {Server Db : Type 0} (redis : Redis Server) (shops : Mapper Row Db) (reads : Reads)
    (json : Styled) (answers : IsRedis redis) (id : ℤ) where
  pub shop_cache_absent :
      (w : World Server Db)
      → redis.keys w.server (cache_shop_key id) ≡ none
      → query_shop_cache redis shops reads json (cache_shop_key id) origin_data_key w
        ≡ (ok null, asking redis id w)
  unfolding query_shop_cache
  shop_cache_absent w absent =
      rw (answers.replies (exists (cache_shop_key id)) w.server, absent, answers.int64_integer) refl

  pub try_lock_free :
      (w : World Server Db)
      → redis.keys w.server (lock_shop_key id) ≡ none
      → try_lock_shop redis shops reads json (lock_shop_key id) w
        ≡ (ok true, locking_shop redis id w)
  unfolding try_lock_shop codes text_eq
  try_lock_free w free =
      rw
        (
          answers.replies (set (lock_shop_key id) (codes "1") false lock_shop_ttl) w.server,
          free,
          answers.string_simple,
        )
        refl

  pub try_lock_held :
      (w : World Server Db) (e : Entry)
      → redis.keys w.server (lock_shop_key id) ≡ some e
      → try_lock_shop redis shops reads json (lock_shop_key id) w
        ≡ (raised (std_exception bad_cast), locking_shop redis id w)
  unfolding try_lock_shop
  try_lock_held w e held =
      rw
        (
          answers.replies (set (lock_shop_key id) (codes "1") false lock_shop_ttl) w.server,
          held,
          answers.string_bulk,
        )
        refl

  pub keys-locking_shop :
      (w : World Server Db) (j : Text)
      → redis.keys w.server (lock_shop_key id) ≡ none
      → redis.keys (locking_shop redis id w).server j
        ≡ put (lock_shop_key id) (some shop_lock) (redis.keys w.server) j
  keys-locking_shop w j free =
      answers.effects (set (lock_shop_key id) (codes "1") false lock_shop_ttl) w.server j
      ∙ rw free refl

  -- With the lock taken after a look into the cache, only the lock is new.
  pub keys-locked :
      (w : World Server Db) (j : Text)
      → redis.keys w.server (lock_shop_key id) ≡ none
      → redis.keys (locking_shop redis id (asking redis id w)).server j
        ≡ put (lock_shop_key id) (some shop_lock) (redis.keys w.server) j
  keys-locked w j free =
      keys-locking_shop (asking redis id w) j (still (lock_shop_key id) ∙ free)
      ∙ ap (λ o. if text_eq (lock_shop_key id) j then some shop_lock else o) (still j)
    where
      still : (k : Text) → redis.keys (asking redis id w).server k ≡ redis.keys w.server k
      still = answers.effects (exists (cache_shop_key id)) w.server
