-- ===== src/ShopService/Expiry/Tests.antt =====
-- A tea house that is refreshed, and a refresh that meets another request.
use project_collection.Base.{◌≡◌, refl, true, false, [], ◌∷◌, some, none, ◌==◌, if◌then◌else◌}
use project_collection.Base.Int.{ℤ, pos, negsuc}
use project_collection.Base.Text.{Text, codes, text_eq, to_string, digits}
use project_collection.Base.{List}
use project_collection.Common.{Outcome, ok, raised, std_exception}
use project_collection.Redis.{Keys, hash, put}
use project_collection.Redis.Memory.{memory, memory-IsRedis}
use project_collection.Orm.{Row}
use project_collection.Orm.Memory.{plain}
use project_collection.ShopService.{cache_shop_key}
use project_collection.ShopService.Memory.{printer, shop_table}
use project_collection.ShopService.Tests.{tea_house}
use project_collection.ShopService.Expiry.{
  Dates, Service, Readings, set_with_logical_expire, query_with_logical_expire,
}
use project_collection.ShopService.Expiry.Refresh.{IsDates}
use project_collection.ShopService.Expiry.Stray.{query_with_logical_expire_diverts}

-- A date as a tag and a number.
abbrev print_date : ℤ → Text
print_date (pos n) = 1 ∷ n ∷ []
print_date (negsuc n) = 2 ∷ n ∷ []

abbrev scan_date : Text → Outcome ℤ
scan_date (_ ∷ _ ∷ _ ∷ tag ∷ n ∷ []) = if tag == 1 then ok (pos n) else ok (negsuc n)
scan_date _ = raised (std_exception (codes "Syntax error"))

abbrev plain_dates : Dates
plain_dates = record { format = print_date; scan = scan_date }

plain_dates-IsDates : IsDates printer plain_dates
plain_dates-IsDates = record {
  read_as = λ t. t;
  back = elim [ pos n ↦ refl | negsuc n ↦ refl ];
  scanned = elim [ pos n ↦ refl | negsuc n ↦ refl ];
  shown = elim [ pos n ↦ refl | negsuc n ↦ refl ];
}

-- Shop 4 with an empty map in the cache, and a refresh under way.
abbrev tea_service : Service Keys (List Row)
tea_service = record {
  world = record {
    server =
        put (cache_shop_key (pos 4)) (some (record { content = hash []; expires = none }))
          (λ k. none);
    db = tea_house 40 ∷ [];
  };
  cur_id = pos 4;
  is_logical_expire = true;
  pending = 1;
}

abbrev soon : Readings
soon = record { built = pos 0; now = pos 20 }

shops_apart : text_eq (cache_shop_key (pos 7)) (cache_shop_key (pos 4)) ≡ false
unfolding codes text_eq digits to_string
shops_apart = refl

query_with_logical_expire_diverts_example :
    (set_with_logical_expire memory shop_table plain printer plain_dates
        (pos 30)
        (query_with_logical_expire memory shop_table plain printer plain_dates soon true
          (pos 7)
          tea_service).1).1.world.server
      (cache_shop_key (pos 4))
    ≡ (query_with_logical_expire memory shop_table plain printer plain_dates soon true
          (pos 7)
          tea_service).1.world.server
        (cache_shop_key (pos 4))
query_with_logical_expire_diverts_example =
    query_with_logical_expire_diverts memory shop_table plain printer plain_dates memory-IsRedis
      soon true (pos 7) (pos 30) tea_service (cache_shop_key (pos 4)) shops_apart
