-- ===== src/ShopService/Mutex.antt =====
-- The wait for the lock in `queryWithMutex`.
use project_collection.Base.{ℕ, suc, ◌≡◌, refl, true, ◌++◌, Option, some, none, ◌⊎◌, inl, inr}
use project_collection.Base.Int.{ℤ}
use project_collection.Base.Text.{codes}
use project_collection.Common.{
  end_of, Outcome, ok, raised, Action, Exception, business, business_with, redis_exception,
  drogon_db_exception, data_exception, std_exception, cache_error,
}
use project_collection.Redis.{Redis, IsRedis, Entry, bad_cast}
use project_collection.Database.{Mapper}
use project_collection.VoucherOrder.Backing.{World}
use project_collection.UserService.{cache_failure}
use project_collection.Orm.{Row}
use project_collection.Orm.Values.{Reads}
use project_collection.ShopService.{
  cache_shop_key, lock_shop_key, origin_data_key, query_shop_cache, in_cache, try_lock_shop,
  rebuild, mutex_round, query_with_mutex,
}
use project_collection.ShopService.Steps.{try_lock_free, try_lock_held, locking_shop}
use project_collection.ShopService.Texts.{Styled}

-- What `catch` makes of an exception.
abbrev caught : Exception → Exception
caught (redis_exception m) = business (business_with cache_error (codes "RedisException:" ++ m))
caught e = e

cache_failure-caught :
    {W A : Type 0} (e : Exception) (w : W)
    → cache_failure {W = W} {A = A} e w ≡ (raised (caught e), w)
cache_failure-caught (redis_exception m) w = refl
cache_failure-caught (business b) w = refl
cache_failure-caught (drogon_db_exception m) w = refl
cache_failure-caught (data_exception name m) w = refl
cache_failure-caught (std_exception m) w = refl

abbrev pub returned : Outcome Row → Outcome (Option Row)
returned (ok s) = ok (some s)
returned (raised e) = raised e

module _ {Server Db : Type 0} (redis : Redis Server) (shops : Mapper Row Db) (reads : Reads)
    (json : Styled) (answers : IsRedis redis) (id : ℤ) where
  -- The lock is taken, or the reply is nil, which is no text.
  try_lock_ends :
      (w : World Server Db) (o : Option Entry)
      → redis.keys w.server (lock_shop_key id) ≡ o
      → (try_lock_shop redis shops reads json (lock_shop_key id) w
          ≡ (ok true, locking_shop redis id w))
        ⊎ (try_lock_shop redis shops reads json (lock_shop_key id) w
            ≡ (raised (std_exception bad_cast), locking_shop redis id w))
  try_lock_ends w none h = inl (try_lock_free redis shops reads json answers id w h)
  try_lock_ends w (some e) h = inr (try_lock_held redis shops reads json answers id w e h)

  round_ends :
      (w : World Server Db)
      → (p : Outcome Row × World Server Db) × ((again : Action (World Server Db) (Option Row))
          → mutex_round redis shops reads json again id w ≡ (returned p.0, p.1))
  unfolding mutex_round
  round_ends w =
      elim (end_of
        (query_shop_cache redis shops reads json (cache_shop_key id) origin_data_key w)) [
          | inr (e, w1, threw) ↦
              ((raised (caught e), w1), λ again. rw threw (cache_failure-caught e w1))
          | inl (value, w1, got) ↦ elim (end_of (in_cache redis shops reads json value w1)) [
            | inr (e, w2, threw) ↦
                ((raised (caught e), w2), λ again. rw (got, threw) (cache_failure-caught e w2))
            | inl (some s, w2, hit) ↦ ((ok s, w2), λ again. rw (got, hit) refl)
            | inl (none, w2, miss) ↦
                elim (try_lock_ends w2 (redis.keys w2.server (lock_shop_key id)) refl) [
                  | inr held ↦ (
                    (raised (std_exception bad_cast), locking_shop redis id w2),
                    λ again. rw (got, miss, held) refl,
                  )
                  | inl taken ↦
                      elim (end_of (rebuild redis shops reads json id (locking_shop redis id w2))) [
                        | inl (s, w3, done) ↦
                            ((ok s, w3), λ again. rw (got, miss, taken, done) refl)
                        | inr (e, w3, threw) ↦ (
                          (raised (caught e), w3),
                          λ again. rw (got, miss, taken, threw) (cache_failure-caught e w3),
                        )
                      ]
                ]
          ]
        ]

  -- `queryWithMutex` returns or throws in its first round, whatever the fuel: the branch that sleeps
  -- and tries again is never taken.
  pub query_with_mutex_ends :
      (w : World Server Db)
      → (p : Outcome Row × World Server Db) × ((n : ℕ)
          → query_with_mutex redis shops reads json (suc n) id w ≡ (returned p.0, p.1))
  unfolding query_with_mutex
  query_with_mutex_ends w =
      let (p, round) = round_ends w in
      (p, λ n. round (query_with_mutex redis shops reads json n id))
