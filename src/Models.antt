-- ===== src/Models.antt =====
-- The rows of include/models, as far as the services read and write them. A column that may be
-- unset is an `Option`, as the `shared_ptr` members are; `getValueOf…` reads a default instead.
use project_collection.Base.{
  ◌≢◌, Bool-cases, inl, inr, ◌≡◌, arith, Bool, true, false, Option, none, some, ◌==◌, ◌&&◌,
}
use project_collection.Base.Int.{ℤ, pos, pos_part, neg_part}
use project_collection.Base.Text.{Text, text_eq}
use project_collection.Base.{[]}

-- `getValueOf…` of a numeric column, and of a text column.
abbrev pub number_of : Option ℤ → ℤ
number_of none = pos 0
number_of (some n) = n

abbrev pub text_of : Option Text → Text
text_of none = []
text_of (some t) = t

abbrev pub eqb_ℤ : ℤ → ℤ → Bool
eqb_ℤ a b = (pos_part a == pos_part b) && (neg_part a == neg_part b)

-- `Criteria(column, CompareOperator::EQ, value)`: NULL equals nothing.
abbrev pub is_number : Option ℤ → ℤ → Bool
is_number none n = false
is_number (some m) n = eqb_ℤ m n

-- `sort_key` is the collation's.
abbrev pub has_key : (Text → Text) → Option Text → Text → Bool
has_key sort_key none k = false
has_key sort_key (some s) k = text_eq (sort_key s) k

abbrev pub is_text : (Text → Text) → Option Text → Text → Bool
is_text sort_key o t = has_key sort_key o (sort_key t)

pub record TbUser : Type 0 where
  pub id : Option ℤ
  pub phone : Option Text
  pub password : Option Text
  pub nick_name : Option Text
  pub icon : Option Text
  pub create_time : Option ℤ
  pub update_time : Option ℤ

-- The default constructor: no column is set.
abbrev pub no_user : TbUser
no_user = record {
  id = none;
  phone = none;
  password = none;
  nick_name = none;
  icon = none;
  create_time = none;
  update_time = none;
}

pub record TbSeckillVoucher : Type 0 where
  pub voucher_id : Option ℤ
  pub stock : Option ℤ
  pub create_time : Option ℤ
  pub begin_time : Option ℤ
  pub end_time : Option ℤ
  pub update_time : Option ℤ

pub record TbVoucherOrder : Type 0 where
  pub id : Option ℤ
  pub user_id : Option ℤ
  pub voucher_id : Option ℤ
  pub pay_type : Option ℤ
  pub status : Option ℤ
  pub create_time : Option ℤ
  pub pay_time : Option ℤ
  pub use_time : Option ℤ
  pub refund_time : Option ℤ
  pub update_time : Option ℤ

abbrev pub no_order : TbVoucherOrder
no_order = record {
  id = none;
  user_id = none;
  voucher_id = none;
  pay_type = none;
  status = none;
  create_time = none;
  pay_time = none;
  use_time = none;
  refund_time = none;
  update_time = none;
}

pub eqb_ℤ_sound : (a b : ℤ) → eqb_ℤ a b ≡ true → a ≡ b
eqb_ℤ_sound a b h = ground arith

pub eqb_ℤ_refl : (a : ℤ) → eqb_ℤ a a ≡ true
eqb_ℤ_refl a = ground arith

pub eqb_ℤ_ne : (a b : ℤ) → a ≢ b → eqb_ℤ a b ≡ false
eqb_ℤ_ne a b h = elim (Bool-cases (eqb_ℤ a b)) [
  | inl same ↦ absurd (h (eqb_ℤ_sound a b same))
  | inr other ↦ other
]
