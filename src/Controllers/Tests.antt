-- ===== src/Controllers/Tests.antt =====
-- Requests to the controllers in memory.
use project_collection.Base.{ℕ, ◌≡◌, refl, true, List, [], ◌∷◌, some, none}
use project_collection.Base.Int.{pos}
use project_collection.Base.Text.{Text, codes, text_eq}
use project_collection.Common.{
  obj, field, end, is_member, member, make_success_json, ok, Json, null, int,
}
use project_collection.Redis.{Keys}
use project_collection.Redis.Memory.{memory, memory-IsRedis}
use project_collection.Models.{TbUser}
use project_collection.Database.{Mapper}
use project_collection.Database.Memory.{reader}
use project_collection.VoucherOrder.{Clock}
use project_collection.VoucherOrder.Backing.{World}
use project_collection.VoucherOrder.Memory.{Tables}
use project_collection.Orm
use project_collection.Orm.{Row, Field, unset, read_member}
use project_collection.Orm.Values.{number, read_value}
use project_collection.Orm.Memory.{plain, plain-IsReads}
use project_collection.Orm.Tables.TbShop
use project_collection.ShopService.Texts.{tb_shop_of}
use project_collection.ShopService.Memory.{printer, plain-IsTexts, shop_table, shop_table-IsReader}
use project_collection.Controllers.Shops.{
  shop_json, query_shop_by_id, update_shop, update_shop-query_shop_by_id,
}
use project_collection.Controllers.{client_answer}

abbrev no_users : Mapper TbUser Tables
no_users = reader (λ d. []) (λ u d. (ok u, d))

abbrev sevens : ℕ → ℕ → ℕ
sevens seed i = 7

abbrev noon : Clock
noon = record { now = pos 50; local_text = codes "20220830120000"; seconds = 1661832000 }

abbrev start : World Keys Tables
start = record { server = λ k. none; db = record { sale_rows = []; order_rows = [] } }

abbrev phone : Text
phone = codes "13512345678"

abbrev token : Text
token = codes "c0ffee"

abbrev no_json : TbUser → Json
no_json u = null

-- A request that sets the score of shop 4, and the table before it.
abbrev body : Json
body = obj (field (codes "id") (int (pos 4)) (field (codes "score") (int (pos 45)) end))

abbrev set_to : ℕ → Field
set_to n = record { value = some (number (pos n)); dirty = true }

abbrev scored : Row
scored =
    set_to 4
    ∷ unset
    ∷ unset
    ∷ unset
    ∷ unset
    ∷ unset
    ∷ unset
    ∷ unset
    ∷ unset
    ∷ unset
    ∷ unset
    ∷ set_to 45
    ∷ unset
    ∷ unset
    ∷ unset
    ∷ []

body_read : tb_shop_of plain body ≡ ok scored
unfolding tb_shop_of TbShop.of_json TbShop.columns Orm.of_json read_member read_value is_member
    member codes text_eq
body_read = refl

abbrev shop_start : World Keys (List Row)
shop_start = record { server = λ k. none; db = (set_to 4 ∷ []) ∷ [] }

update_shop-query_shop_by_id_example :
    (client_answer (update_shop memory shop_table plain printer body shop_start).0
      ≡ make_success_json int (pos 0))
    × (client_answer
          (query_shop_by_id memory shop_table plain printer
            (pos 4)
            (update_shop memory shop_table plain printer body shop_start).1).0
        ≡ make_success_json (shop_json plain) scored)
update_shop-query_shop_by_id_example =
    update_shop-query_shop_by_id memory shop_table plain printer memory-IsRedis shop_table-IsReader
      plain-IsReads plain-IsTexts (pos 4) shop_start body scored scored 1 body_read refl refl refl
      refl refl
