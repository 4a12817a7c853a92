-- ===== src/ShopService/Tests.antt =====
-- A tea house in the table, in the cache, and missing.
use project_collection.Base.{ℕ, suc, ◌≡◌, refl, false, List, [], ◌∷◌, some, none, map, arith}
use project_collection.Base.Int.{pos, ◌+ℤ◌}
use project_collection.Base.Text.{Text, codes, digits, digits_value, atol}
use project_collection.Common.{Outcome, ok, raised}
use project_collection.Redis.{Keys, put}
use project_collection.Redis.Memory.{memory, memory-IsRedis}
use project_collection.VoucherOrder.Backing.{World}
use project_collection.Orm.{Row, Field, unset}
use project_collection.Orm.Values.{Value, number, string, bits, date, read_time, json_of_value}
use project_collection.Orm.RoundTrip.{Fits, marked}
use project_collection.Orm.Memory.{plain, plain-IsReads}
use project_collection.Orm.Tables.TbShop
use project_collection.Orm
use project_collection.ShopService.{
  cache_shop_key, lock_shop_key, query_with_pass_through, query_with_mutex,
}
use project_collection.ShopService.Pairs.{ReadsBack}
use project_collection.ShopService.Rebuild.{shop_entry, query_with_mutex-query_with_pass_through}
use project_collection.ShopService.Steps.{shop_lock}
use project_collection.ShopService.Missing.{db_failure_of, query_with_mutex_leaks_lock}
use project_collection.ShopService.Mutex.{returned, query_with_mutex_ends}
use project_collection.ShopService.Memory.{printer, plain-IsTexts, shop_table, shop_table-IsReader}

abbrev held : Value → Field
held v = record { value = some v; dirty = false }

-- Shop 4 of type 1, with a score of s.
abbrev pub tea_house : ℕ → Row
tea_house score =
    held (number (pos 4))
    ∷ held (string (codes "tea"))
    ∷ held (number (pos 1))
    ∷ held (string (codes "t.png"))
    ∷ unset
    ∷ held (string (codes "road 1"))
    ∷ held (bits 77)
    ∷ held (bits 78)
    ∷ unset
    ∷ held (number (pos 0))
    ∷ held (number (pos 2))
    ∷ held (number (pos score))
    ∷ unset
    ∷ held (date (pos 9000000))
    ∷ unset
    ∷ []

pub tea_house-Fits : Fits plain TbShop.columns (tea_house 40)
unfolding TbShop.columns read_time codes digits atol digits_value ◌+ℤ◌
tea_house-Fits = (
  (omega arith, omega arith),
  (
    tt,
    (
      (omega arith, omega arith),
      (
        tt,
        (
          tt,
          (
            tt,
            (
              tt,
              (
                tt,
                (
                  tt,
                  (
                    (omega arith, omega arith),
                    (
                      (omega arith, omega arith),
                      ((omega arith, omega arith), (tt, (refl, (tt, tt)))),
                    ),
                  ),
                ),
              ),
            ),
          ),
        ),
      ),
    ),
  ),
)

pub tea_house-ReadsBack : ReadsBack printer (TbShop.to_json plain (tea_house 40))
unfolding TbShop.columns TbShop.to_json Orm.to_json json_of_value codes digits
tea_house-ReadsBack = (_, refl, (λ k. refl), (λ k. refl))

abbrev no_keys : Keys
no_keys k = none

-- Nothing in Redis.
abbrev open_shop : List Row → World Keys (List Row)
open_shop rows = record { server = no_keys; db = rows }

query_with_mutex-query_with_pass_through_example :
    ((query_with_mutex memory shop_table plain printer 3 (pos 4) (open_shop (tea_house 40 ∷ []))).0
      ≡ ok (some (tea_house 40)))
    × ((query_with_mutex memory shop_table plain printer 3
          (pos 4)
          (open_shop (tea_house 40 ∷ []))).1.db
        ≡ tea_house 40 ∷ [])
    × ((query_with_mutex memory shop_table plain printer 3
            (pos 4)
            (open_shop (tea_house 40 ∷ []))).1.server
          (cache_shop_key (pos 4))
        ≡ some (
            shop_entry memory shop_table plain printer memory-IsRedis shop_table-IsReader
              plain-IsReads plain-IsTexts
              (pos 4)
              (tea_house 40)))
    × ((query_with_mutex memory shop_table plain printer 3
            (pos 4)
            (open_shop (tea_house 40 ∷ []))).1.server
          (lock_shop_key (pos 4))
        ≡ none)
    × ((query_with_pass_through memory shop_table plain printer
          (pos 4)
          (record (query_with_mutex memory shop_table plain printer 3
            (pos 4)
            (open_shop (tea_house 40 ∷ []))).1 { db = [] })).0
        ≡ ok (map marked (tea_house 40)))
query_with_mutex-query_with_pass_through_example =
    query_with_mutex-query_with_pass_through memory shop_table plain printer memory-IsRedis
      shop_table-IsReader plain-IsReads plain-IsTexts (pos 4) (tea_house 40) 2
      (open_shop (tea_house 40 ∷ [])) [] refl refl refl refl tea_house-Fits tea_house-ReadsBack

query_with_mutex_leaks_lock_example :
    (e : Text) × ((query_with_mutex memory shop_table plain printer 3 (pos 4) (open_shop [])).0
      ≡ raised (db_failure_of e))
    × ((query_with_mutex memory shop_table plain printer 3 (pos 4) (open_shop [])).1.db ≡ [])
    × ((j : Text)
        → (query_with_mutex memory shop_table plain printer 3 (pos 4) (open_shop [])).1.server j
          ≡ put (lock_shop_key (pos 4)) (some shop_lock) no_keys j)
query_with_mutex_leaks_lock_example =
    query_with_mutex_leaks_lock memory shop_table plain printer memory-IsRedis shop_table-IsReader
      (pos 4) 2 (open_shop []) refl refl (omega arith)

-- With the lock held by someone else.
abbrev locked_keys : Keys
locked_keys = put (lock_shop_key (pos 4)) (some shop_lock) no_keys

query_with_mutex_ends_example :
    (p : Outcome Row × World Keys (List Row)) × ((n : ℕ)
      → query_with_mutex memory shop_table plain printer
          (suc n)
          (pos 4)
          (record { server = locked_keys; db = [] })
        ≡ (returned p.0, p.1))
query_with_mutex_ends_example =
    query_with_mutex_ends memory shop_table plain printer memory-IsRedis (pos 4)
      (record { server = locked_keys; db = [] })
