-- ===== src/ShopService/Search/Pages.antt =====
-- What queryByType returns.
use project_collection.Base.{
  ℕ, zero, suc, ◌-◌, ◌≡◌, refl, ◌∙◌, ap, sym, true, false, ◌||◌, ◌==◌, List, [], ◌∷◌, some, length,
  take, drop, get_elem?, arith, Bool-cases, ◌⊎◌, inl, inr,
}
use project_collection.Base.Int.{ℤ, pos, ◌-ℤ◌}
use project_collection.Common.{end_of, ok, raised, Exception, Json}
use project_collection.Models.{is_number}
use project_collection.Database.{Mapper, IsReader, select}
use project_collection.VoucherOrder.Backing.{World}
use project_collection.Orm.{Row}
use project_collection.Orm.Values.{Reads}
use project_collection.Orm.Access.{number_column}
use project_collection.ShopService.Places.{Doubles, Geo, IsGeo, load_shop_data, shop_geo_key}
use project_collection.ShopService.Places.Loaded.{AreFree, ArePlaced, load_shop_data-places}
use project_collection.ShopService.Search.{
  Search, search_of, minus_one, to_int, add_some, is_past, rounds_of, pages, min, copy_shops,
  page_from, by_page, by_place, take_ids, query_by_type,
}

take_none : {A : Type 0} (n : ℕ) → take {A = A} n [] ≡ []
take_none zero = refl
take_none (suc n) = refl

take_step :
    (n i : ℕ) (shops : List Row)
    → take (suc n) (drop i shops) ≡ add_some (get_elem? shops i) (take n (drop (suc i) shops))
take_step n zero [] = sym (take_none n)
take_step n (suc i) [] = sym (take_none n)
take_step n zero (s ∷ shops) = refl
take_step n (suc i) (s ∷ shops) = take_step n i shops

-- The loop copies a part of the list.
copy_shops_lem :
    (rounds i : ℕ) (shops : List Row) → copy_shops rounds i shops ≡ take rounds (drop i shops)
unfolding copy_shops
copy_shops_lem zero i shops = refl
copy_shops_lem (suc rounds) i shops =
    ap (add_some (get_elem? shops i)) (copy_shops_lem rounds (suc i) shops)
    ∙ sym (take_step rounds i shops)

take-min : (k : ℕ) (shops : List Row) → take (min (length shops) k) shops ≡ take k shops
take-min k [] = take_none (min 0 k) ∙ sym (take_none k)
take-min zero (s ∷ shops) = let e : min (suc (length shops)) 0 ≡ 0 = ground arith in rw e refl
take-min (suc k) (s ∷ shops) =
    let e : min (suc (length shops)) (suc k) ≡ suc (min (length shops) k) = ground arith in
    rw e (ap (λ r. s ∷ r) (take-min k shops))

page_lem :
    (i k : ℕ) (shops : List Row)
    → take (min (length shops) k - i) (drop i shops) ≡ drop i (take k shops)
page_lem zero k shops =
    let e : min (length shops) k - 0 ≡ min (length shops) k = omega arith in rw e (take-min k shops)
page_lem (suc i) k [] = take_none (min 0 k - suc i) ∙ sym (rw (take_none {A = Row} k) refl)
page_lem (suc i) zero (s ∷ shops) =
    let e : min (suc (length shops)) 0 - suc i ≡ 0 = ground arith in rw e refl
page_lem (suc i) (suc k) (s ∷ shops) =
    let e : min (suc (length shops)) (suc k) - suc i ≡ min (length shops) k - i = ground arith in
    rw e (page_lem i k shops)

abbrev first_of : Search → ℤ
first_of s = to_int (pages (s.current -ℤ pos 1))

abbrev last_of : Search → ℤ
last_of s = to_int (pages s.current)

module _ {Server Db : Type 0} (geo : Geo Server) (shops : Mapper Row Db) (reads : Reads)
    (d : Doubles) where
  abbrev of_type : ℤ → World Server Db → List Row
  of_type type_id w = select (λ row. is_number (number_column 2 row) type_id) (shops.rows w.db)

  -- Without a place, where the places can be loaded: the result is the first five shops of the type, less as
  -- many as the number of the page says.
  pub query_by_type-page :
      (laws : IsGeo geo) (finds : IsReader shops) (w : World Server Db) (j : Json) (s : Search)
      (n : ℕ)
      → AreFree geo shops d laws w.server
      → ArePlaced geo shops d laws (shops.rows w.db)
      → search_of reads d j ≡ ok s
      → ((s.x == minus_one) || (s.y == minus_one)) ≡ true
      → to_int s.current ≡ pos n
      → (query_by_type geo shops reads d j w).0
        ≡ ok (
            some (
              drop n (
                take 5
                  (select (λ row. is_number (number_column 2 row) s.type_id) (shops.rows w.db)))))
  unfolding query_by_type by_page page_from
  query_by_type-page laws finds w j s n free placed read nowhere page =
      let (done, kept, places) = load_shop_data-places geo shops d laws finds w free placed in
      let whole : load_shop_data geo shops d w ≡ (ok tt, (load_shop_data geo shops d w).1) =
        ap (λ o. (o, (load_shop_data geo shops d w).1)) done in
      rw
        (
          read,
          whole,
          nowhere,
          finds.found (λ row. is_number (number_column 2 row) s.type_id)
              (load_shop_data geo shops d w).1.db,
          kept,
          page,
        )
        (ap (λ r. ok (some r))
          (copy_shops_lem (min (length (of_type s.type_id w)) 5 - n) n (of_type s.type_id w)
            ∙ page_lem n 5 (of_type s.type_id w)))

  -- Around a place no shop is ever returned: the list is empty, or an exception is thrown.
  pub query_by_type-place :
      (w : World Server Db) (j : Json) (s : Search)
      → search_of reads d j ≡ ok s
      → ((s.x == minus_one) || (s.y == minus_one)) ≡ false
      → ((query_by_type geo shops reads d j w).0 ≡ ok (some []))
        ⊎ ((e : Exception) × ((query_by_type geo shops reads d j w).0 ≡ raised e))
  unfolding query_by_type by_place
  query_by_type-place w j s read somewhere = elim (end_of (load_shop_data geo shops d w)) [
    | inr (e, w1, threw) ↦ inr (e, rw (read, threw) refl)
    | inl (u, w1, loaded) ↦
        elim (end_of
          (geo.geo_search (shop_geo_key s.type_id) (d.print s.x) (d.print s.y) w1.server)) [
            | inr (e, s2, threw) ↦ inr (e, rw (read, loaded, somewhere, threw) refl)
            | inl (found, s2, got) ↦
                elim (Bool-cases ((length found == 0) || is_past found (first_of s))) [
                  | inl empty ↦ inl (rw (read, loaded, somewhere, got, empty) refl)
                  | inr some_left ↦
                      elim (end_of (
                        take_ids (rounds_of (last_of s -ℤ first_of s)) (first_of s) found
                          (record w1 { server = s2 }))) [
                            | inl (u, w2, taken) ↦
                                inl (rw (read, loaded, somewhere, got, some_left, taken) refl)
                            | inr (e, w2, threw) ↦
                                inr (e, rw (read, loaded, somewhere, got, some_left, threw) refl)
                          ]
                ]
          ]
  ]
