-- ===== src/ShopService/Places/Loaded.antt =====
-- What loadShopData leaves in Redis.
use project_collection.Base.{
  ◌≡◌, refl, ◌∙◌, ap, sym, subst, true, false, List, [], ◌∷◌, map, All, All-append, Bool-cases, inl,
  inr,
}
use project_collection.Base.Int.{ℤ, ltb_ℤ}
use project_collection.Base.Text.{
  Text, codes, text_eq, text_eq_refl, text_eq_sound, to_string, to_string-injective,
}
use project_collection.Common.{ok}
use project_collection.Models.{eqb_ℤ, eqb_ℤ_refl, eqb_ℤ_sound}
use project_collection.Database.{Mapper, IsReader, select}
use project_collection.VoucherOrder.Backing.{World}
use project_collection.Orm.{Row}
use project_collection.ShopService.Places.{
  Doubles, Geo, IsGeo, Shelves, last_place, shop_geo_key, type_of, place_of, group_shops,
  add_groups, load_shop_data, AreValid, insert_shop,
}
use project_collection.ShopService.Places.Groups.{
  rows_of, IsAscending, rows_of-Above, group_shops-select,
}

geo_key_other : (u j : ℤ) → eqb_ℤ u j ≡ false → text_eq (shop_geo_key u) (shop_geo_key j) ≡ false
unfolding codes text_eq
geo_key_other u j h = elim (Bool-cases (text_eq (to_string u) (to_string j))) [
  | inl same ↦
      let e = to_string-injective u j (text_eq_sound (to_string u) (to_string j) same) in
      let clash : eqb_ℤ u j ≡ true = subst (λ v. eqb_ℤ u v ≡ true) e (eqb_ℤ_refl u) in
      absurd (let both = sym h ∙ clash in cc)
  | inr other ↦ other
]

module _ {Server Db : Type 0} (geo : Geo Server) (shops : Mapper Row Db) (d : Doubles)
    (laws : IsGeo geo) where
  -- Nothing but places stands under the keys of the types.
  abbrev pub AreFree : Server → Type 0
  AreFree s = (j : ℤ) → geo.is_free s (shop_geo_key j) ≡ true

  -- The shops are where Redis takes places.
  abbrev pub ArePlaced : List Row → Type 0
  ArePlaced = All λ s. geo.is_valid (place_of d s) ≡ true

  map-AreValid : (rows : List Row) → ArePlaced rows → AreValid geo (map (place_of d) rows)
  map-AreValid [] placed = tt
  map-AreValid (s ∷ rows) placed = (placed.0, map-AreValid rows placed.1)

  abbrev GroupsArePlaced : Shelves → Type 0
  GroupsArePlaced = All λ group. ArePlaced group.1

  insert_shop-GroupsArePlaced :
      (t : ℤ) (s : Row) (groups : Shelves)
      → geo.is_valid (place_of d s) ≡ true
      → GroupsArePlaced groups
      → GroupsArePlaced (insert_shop t s groups)
  unfolding insert_shop
  insert_shop-GroupsArePlaced t s [] valid placed = ((valid, tt), tt)
  insert_shop-GroupsArePlaced t s ((u, rows) ∷ groups) valid (here, placed) =
      elim (Bool-cases (eqb_ℤ u t)) [
        | inl same ↦ rw same (
          All-append (λ r. geo.is_valid (place_of d r) ≡ true) rows (s ∷ []) here (valid, tt),
          placed,
        )
        | inr other ↦ elim (Bool-cases (ltb_ℤ t u)) [
          | inl less ↦ rw (other, less) ((valid, tt), (here, placed))
          | inr more ↦ rw (other, more) (here, insert_shop-GroupsArePlaced t s groups valid placed)
        ]
      ]

  group_shops-GroupsArePlaced :
      (rows : List Row) (groups : Shelves)
      → ArePlaced rows
      → GroupsArePlaced groups
      → GroupsArePlaced (group_shops rows groups)
  unfolding group_shops
  group_shops-GroupsArePlaced [] groups placed groups_placed = groups_placed
  group_shops-GroupsArePlaced (s ∷ rows) groups placed groups_placed =
      group_shops-GroupsArePlaced rows (insert_shop (type_of s) s groups) placed.1
        (insert_shop-GroupsArePlaced (type_of s) s groups placed.0 groups_placed)

  -- The places of a type after those of the groups were added.
  abbrev pub Loaded : Shelves → Server → Server → Type 0
  Loaded groups s s' =
      (j : ℤ) (m : Text)
      → geo.position s' (shop_geo_key j) m
        ≡ last_place m (map (place_of d) (rows_of j groups)) (geo.position s (shop_geo_key j) m)

  groups_added :
      (groups : Shelves) (s : Server)
      → IsAscending groups
      → AreFree s
      → GroupsArePlaced groups
      → (s' : Server) × (add_groups geo shops d groups s ≡ (ok tt, s')) × Loaded groups s s'
  unfolding add_groups
  groups_added [] s k free placed = (s, refl, λ j m. refl)
  groups_added ((u, rows) ∷ groups) s k free placed =
      let places = map (place_of d) rows in
      let s1 = (geo.geo_add (shop_geo_key u) places s).1 in
      let valid = map-AreValid rows placed.0 in
      let (n, sent) = laws.added (shop_geo_key u) places s (free u) valid in
      let whole : geo.geo_add (shop_geo_key u) places s ≡ (ok n, s1) = ap (λ o. (o, s1)) sent in
      let (s', done, rest) =
        groups_added groups s1 k.1
          (λ j. laws.stays_free (shop_geo_key u) places s (shop_geo_key j) (free j)) placed.1 in
      (
        s',
        rw (whole, done) refl,
        λ j m. rest j m ∙ elim (Bool-cases (eqb_ℤ u j)) [
          | inl here ↦
              let e = eqb_ℤ_sound u j here in
              let nothing : rows_of j groups ≡ [] =
                subst (λ v. rows_of v groups ≡ []) e (rows_of-Above u groups k.0) in
              let same : text_eq (shop_geo_key u) (shop_geo_key j) ≡ true =
                subst (λ v. text_eq (shop_geo_key u) (shop_geo_key v) ≡ true) e
                  (text_eq_refl (shop_geo_key u)) in
              rw
                (
                  laws.placed (shop_geo_key u) places s (shop_geo_key j) m (free u) valid,
                  same,
                  here,
                  nothing,
                )
                refl
          | inr elsewhere ↦
              rw
                (
                  laws.placed (shop_geo_key u) places s (shop_geo_key j) m (free u) valid,
                  geo_key_other u j elsewhere,
                  elsewhere,
                )
                refl
        ],
      )

  -- Where nothing but places stands under the keys of the types, and every shop has a longitude and
  -- a latitude in the range of Redis: loadShopData succeeds, leaves the database alone, and puts each
  -- shop of the table under the key of its type; a member stands where the last shop of the type with
  -- its number is, and where it stood before if there is none.
  pub load_shop_data-places :
      (finds : IsReader shops) (w : World Server Db)
      → AreFree w.server
      → ArePlaced (shops.rows w.db)
      → ((load_shop_data geo shops d w).0 ≡ ok tt)
        × ((load_shop_data geo shops d w).1.db ≡ w.db)
        × ((j : ℤ) (m : Text)
            → geo.position (load_shop_data geo shops d w).1.server (shop_geo_key j) m
              ≡ last_place m
                  (map (place_of d) (select (λ s. eqb_ℤ (type_of s) j) (shops.rows w.db)))
                  (geo.position w.server (shop_geo_key j) m))
  unfolding load_shop_data
  load_shop_data-places finds w free placed =
      let (ascending, grouped) = group_shops-select (shops.rows w.db) in
      let (s', done, loaded) =
        groups_added (group_shops (shops.rows w.db) []) w.server ascending free
          (group_shops-GroupsArePlaced (shops.rows w.db) [] placed tt) in
      (
        rw (finds.all_found w.db, done) refl,
        rw (finds.all_found w.db, done) refl,
        λ j m.
            rw (finds.all_found w.db, done)
              (loaded j m
                ∙ ap
                    (λ rows.
                      last_place m (map (place_of d) rows)
                        (geo.position w.server (shop_geo_key j) m))
                    (grouped j)),
      )
