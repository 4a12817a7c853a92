-- ===== src/ShopService/Expiry/Stray.antt =====
-- The id of a refresh is read when it runs.
use project_collection.Base.{
  ◌≡◌, ◌⊎◌, refl, ◌∙◌, ap, sym, Bool, true, false, Bool-cases, inl, inr, if◌then◌else◌,
}
use project_collection.Base.Int.{ℤ, ltb_ℤ, ◌+ℤ◌}
use project_collection.Base.Text.{Text, text_eq}
use project_collection.Common.{
  Outcome, ok, raised, Action, pure, ◌>>=◌, ◌>>◌, Exception, business, drogon_db_exception,
  redis_exception, data_exception, std_exception, end_of,
}
use project_collection.Redis.{Redis, IsRedis, hmset, reply}
use project_collection.Database.{Mapper}
use project_collection.VoucherOrder.Backing.{World}
use project_collection.UserService.{cache_failure}
use project_collection.Orm.{Row}
use project_collection.Orm.Values.{Reads}
use project_collection.ShopService.{
  cache_shop_key, lock_shop_key, is_shop, db_exception, query_db_by_id, try_lock_shop, unlock_shop,
}
use project_collection.ShopService.Texts.{Styled, convert_json_to_map}
use project_collection.ShopService.Expiry.{
  Dates, Service, Readings, at_world, half_minute, to_json_str, write_expiring,
  set_with_logical_expire, build_logical_expire_cache, expired, stored_shop, served,
  query_with_logical_expire, start_refresh,
}

outcome_of :
    {A : Type 0} (o : Outcome A) → ((a : A) × (o ≡ ok a)) ⊎ ((e : Exception) × (o ≡ raised e))
outcome_of (ok a) = inl (a, refl)
outcome_of (raised e) = inr (e, refl)

-- A call that leaves the current id alone.
abbrev KeepsId : {Server Db A : Type 0} → Action (Service Server Db) A → Type 0
KeepsId {Server} {Db} {A} m = (v : Service Server Db) → (m v).1.cur_id ≡ v.cur_id

module _ {Server Db A B : Type 0} where
  bind-KeepsId :
      (m : Action (Service Server Db) A) (f : A → Action (Service Server Db) B)
      → KeepsId m
      → ((a : A) → KeepsId (f a))
      → KeepsId (m >>= f)
  bind-KeepsId m f keeps then_keeps v = elim (end_of (m v)) [
    | inl (a, w, e) ↦ rw e (then_keeps a w ∙ ap (λ p. p.1.cur_id) (sym e) ∙ keeps v)
    | inr (x, w, e) ↦ rw e (ap (λ p. p.1.cur_id) (sym e) ∙ keeps v)
  ]

cache_failure-KeepsId :
    (Server Db A : Type 0) (e : Exception)
    → KeepsId {Server = Server} {Db = Db} {A = A} (cache_failure e)
cache_failure-KeepsId Server Db A (business b) v = refl
cache_failure-KeepsId Server Db A (drogon_db_exception m) v = refl
cache_failure-KeepsId Server Db A (redis_exception m) v = refl
cache_failure-KeepsId Server Db A (data_exception name m) v = refl
cache_failure-KeepsId Server Db A (std_exception m) v = refl

start_refresh-KeepsId :
    (Server Db : Type 0) (b : Bool) → KeepsId {Server = Server} {Db = Db} (start_refresh b)
start_refresh-KeepsId Server Db true v = refl
start_refresh-KeepsId Server Db false v = refl

module _ {Server Db : Type 0} (redis : Redis Server) (shops : Mapper Row Db) (reads : Reads)
    (json : Styled) (dates : Dates) where
  built-KeepsId :
      (id now : ℤ) → KeepsId (build_logical_expire_cache redis shops reads json dates id now)
  unfolding build_logical_expire_cache
  built-KeepsId id now v = elim (Bool-cases v.is_logical_expire) [
    | inl e ↦ rw e refl
    | inr e ↦ rw e refl
  ]

  abbrev with_lock : Bool → ℤ → Bool → Action (Service Server Db) (Unit {0})
  with_lock has_thread id is_lock =
      if is_lock
      then (do
        start_refresh has_thread
        at_world (unlock_shop redis shops reads json (lock_shop_key id)))
      else pure tt

  with_lock-KeepsId : (has_thread : Bool) (id : ℤ) (b : Bool) → KeepsId (with_lock has_thread id b)
  with_lock-KeepsId has_thread id true =
      bind-KeepsId (start_refresh has_thread)
        (λ u. at_world (unlock_shop redis shops reads json (lock_shop_key id)))
        (start_refresh-KeepsId Server Db has_thread) (λ u v. refl)
  with_lock-KeepsId has_thread id false = λ v. refl

  expired-KeepsId :
      (has_thread : Bool) (id : ℤ) → KeepsId (expired redis shops reads json dates has_thread id)
  unfolding expired
  expired-KeepsId has_thread id =
      bind-KeepsId (at_world (try_lock_shop redis shops reads json (lock_shop_key id)))
        (with_lock has_thread id) (λ v. refl) (with_lock-KeepsId has_thread id)

  served-KeepsId :
      (c : Readings) (has_thread : Bool) (id : ℤ) (p : Row × ℤ)
      → KeepsId (served redis shops reads json dates c has_thread id p)
  unfolding served
  served-KeepsId c has_thread id (shop, time) v = elim (Bool-cases (ltb_ℤ c.now time)) [
    | inl fresh ↦ rw fresh refl
    | inr stale ↦ rw stale (
        bind-KeepsId (expired redis shops reads json dates has_thread id) (λ u. pure shop)
          (expired-KeepsId has_thread id) (λ u w. refl) v)
  ]

  abbrev rest : Readings → Bool → ℤ → Action (Service Server Db) Row
  rest c has_thread id = do
    build_logical_expire_cache redis shops reads json dates id c.built
    stored ← at_world (stored_shop redis shops reads json dates id)
    served redis shops reads json dates c has_thread id stored

  rest-KeepsId : (c : Readings) (has_thread : Bool) (id : ℤ) → KeepsId (rest c has_thread id)
  rest-KeepsId c has_thread id =
      bind-KeepsId (build_logical_expire_cache redis shops reads json dates id c.built)
        (λ u.
          at_world (stored_shop redis shops reads json dates id)
          >>= served redis shops reads json dates c has_thread id)
        (built-KeepsId id c.built)
        (λ u.
          bind-KeepsId (at_world (stored_shop redis shops reads json dates id))
            (served redis shops reads json dates c has_thread id) (λ v. refl)
            (served-KeepsId c has_thread id))

  -- A request leaves its id behind, however it ends.
  query_leaves_id :
      (c : Readings) (has_thread : Bool) (id : ℤ) (v : Service Server Db)
      → (query_with_logical_expire redis shops reads json dates c has_thread id v).1.cur_id ≡ id
  unfolding query_with_logical_expire
  query_leaves_id c has_thread id v =
      let kept = rest-KeepsId c has_thread id (record v { cur_id = id }) in
      elim (end_of (rest c has_thread id (record v { cur_id = id }))) [
        | inl (a, w, e) ↦ rw e (ap (λ p. p.1.cur_id) (sym e) ∙ kept)
        | inr (x, w, e) ↦
            rw e (cache_failure-KeepsId Server Db Row x w ∙ ap (λ p. p.1.cur_id) (sym e) ∙ kept)
      ]

  db_exception_keeps :
      (e : Exception) (w : World Server Db) → (db_exception {A = Row} e w).1.server ≡ w.server
  db_exception_keeps (business b) w = refl
  db_exception_keeps (drogon_db_exception m) w = refl
  db_exception_keeps (redis_exception m) w = refl
  db_exception_keeps (data_exception name m) w = refl
  db_exception_keeps (std_exception m) w = refl

  query_db_by_id_keeps :
      (id : ℤ) (w : World Server Db)
      → (query_db_by_id redis shops reads json id w).1.server ≡ w.server
  unfolding query_db_by_id
  query_db_by_id_keeps id w = elim (end_of (shops.find_one (is_shop id) w.db)) [
    | inl (s, d, e) ↦ rw e refl
    | inr (x, d, e) ↦ rw e (db_exception_keeps x (record w { db = d }))
  ]

  write_expiring_elsewhere :
      (answers : IsRedis redis) (id : ℤ) (s : Row) (t : ℤ) (w : World Server Db) (j : Text)
      → text_eq (cache_shop_key id) j ≡ false
      → redis.keys (write_expiring redis shops reads json dates id s t w).1.server j
        ≡ redis.keys w.server j
  unfolding write_expiring
  write_expiring_elsewhere answers id s t w j other =
      elim (outcome_of (convert_json_to_map reads (to_json_str reads json dates s t))) [
        | inl (m, made) ↦
            (let moved = answers.effects (hmset (cache_shop_key id) m) w.server j ∙ rw other refl in
              elim (outcome_of
                (redis.read_string (reply (redis.keys w.server) (hmset (cache_shop_key id) m)))) [
                  | inl (a, read) ↦
                      rw (made, answers.replies (hmset (cache_shop_key id) m) w.server, read) moved
                  | inr (x, failed) ↦
                      rw (made, answers.replies (hmset (cache_shop_key id) m) w.server, failed)
                        moved
                ])
        | inr (x, failed) ↦ rw failed refl
      ]

  refresh_elsewhere :
      (answers : IsRedis redis) (start : ℤ) (v : Service Server Db) (j : Text)
      → text_eq (cache_shop_key v.cur_id) j ≡ false
      → redis.keys (set_with_logical_expire redis shops reads json dates start v).1.world.server j
        ≡ redis.keys v.world.server j
  unfolding set_with_logical_expire
  refresh_elsewhere answers start v j other =
      let same = query_db_by_id_keeps v.cur_id v.world in
      elim (end_of (query_db_by_id redis shops reads json v.cur_id v.world)) [
        | inl (s, w, e) ↦ rw e (
            write_expiring_elsewhere answers v.cur_id s (start +ℤ half_minute) w j other
            ∙ ap (λ p. redis.keys p.1.server j) (sym e)
            ∙ ap (λ server. redis.keys server j) same)
        | inr (x, w, e) ↦
            rw e
              (ap (λ p. redis.keys p.1.server j) (sym e) ∙ ap (λ server. redis.keys server j) same)
      ]

  -- However a request ends, a refresh that runs after it, for whichever shop it was started, writes
  -- at most the cache of that request's shop: it leaves the entry of every other key alone.
  pub query_with_logical_expire_diverts :
      (answers : IsRedis redis) (c : Readings) (has_thread : Bool) (id start : ℤ)
      (v : Service Server Db) (j : Text)
      → text_eq (cache_shop_key id) j ≡ false
      → redis.keys
          (set_with_logical_expire redis shops reads json dates start
            (query_with_logical_expire redis shops reads json dates c has_thread id
              v).1).1.world.server
          j
        ≡ redis.keys
            (query_with_logical_expire redis shops reads json dates c has_thread id
              v).1.world.server
            j
  query_with_logical_expire_diverts answers c has_thread id start v j other =
      refresh_elsewhere answers start
        (query_with_logical_expire redis shops reads json dates c has_thread id v).1 j
        (rw (query_leaves_id c has_thread id v) other)
