-- ===== src/Orm/Classes.antt =====
-- The twelve classes: their columns meet the conditions of the theorems about columns.
use project_collection.Base.{List}
use project_collection.Base.Text.{codes, text_eq}
use project_collection.Base.{arith}
use project_collection.Orm.{Column}
use project_collection.Orm.Validated.{IsProper}
use project_collection.Orm.Masquerade.{HaveNames}
use project_collection.Orm.RoundTrip.{IsDistinct}
use project_collection.Orm.Tables.TbBlog
use project_collection.Orm.Tables.TbBlogComments
use project_collection.Orm.Tables.TbFollow
use project_collection.Orm.Tables.TbSeckillVoucher
use project_collection.Orm.Tables.TbShop
use project_collection.Orm.Tables.TbShopType
use project_collection.Orm.Tables.TbSign
use project_collection.Orm.Tables.TbUser
use project_collection.Orm.Tables.TbUserInfo
use project_collection.Orm.Tables.TbVoucher
use project_collection.Orm.Tables.TbVoucherOrder
use project_collection.Orm.Tables.User

pub data Class : Type 0 where
  blog blog_comments follow seckill_voucher shop shop_type sign user user_info voucher : Class
  voucher_order account : Class

abbrev pub columns_of : Class → List Column
columns_of blog = TbBlog.columns
columns_of blog_comments = TbBlogComments.columns
columns_of follow = TbFollow.columns
columns_of seckill_voucher = TbSeckillVoucher.columns
columns_of shop = TbShop.columns
columns_of shop_type = TbShopType.columns
columns_of sign = TbSign.columns
columns_of user = TbUser.columns
columns_of user_info = TbUserInfo.columns
columns_of voucher = TbVoucher.columns
columns_of voucher_order = TbVoucherOrder.columns
columns_of account = User.columns

pub columns_of-IsDistinct : (class : Class) → IsDistinct (columns_of class)
unfolding codes text_eq TbBlog.columns TbBlogComments.columns TbFollow.columns
    TbSeckillVoucher.columns TbShop.columns TbShopType.columns TbSign.columns TbUser.columns
    TbUserInfo.columns TbVoucher.columns TbVoucherOrder.columns User.columns
columns_of-IsDistinct blog = ground arith
columns_of-IsDistinct blog_comments = ground arith
columns_of-IsDistinct follow = ground arith
columns_of-IsDistinct seckill_voucher = ground arith
columns_of-IsDistinct shop = ground arith
columns_of-IsDistinct shop_type = ground arith
columns_of-IsDistinct sign = ground arith
columns_of-IsDistinct user = ground arith
columns_of-IsDistinct user_info = ground arith
columns_of-IsDistinct voucher = ground arith
columns_of-IsDistinct voucher_order = ground arith
columns_of-IsDistinct account = ground arith

pub columns_of-IsProper : (class : Class) → IsProper (columns_of class)
unfolding TbBlog.columns TbBlogComments.columns TbFollow.columns TbSeckillVoucher.columns
    TbShop.columns TbShopType.columns TbSign.columns TbUser.columns TbUserInfo.columns
    TbVoucher.columns TbVoucherOrder.columns User.columns
columns_of-IsProper blog = ground arith
columns_of-IsProper blog_comments = ground arith
columns_of-IsProper follow = ground arith
columns_of-IsProper seckill_voucher = ground arith
columns_of-IsProper shop = ground arith
columns_of-IsProper shop_type = ground arith
columns_of-IsProper sign = ground arith
columns_of-IsProper user = ground arith
columns_of-IsProper user_info = ground arith
columns_of-IsProper voucher = ground arith
columns_of-IsProper voucher_order = ground arith
columns_of-IsProper account = ground arith

pub columns_of-HaveNames : (class : Class) → HaveNames (columns_of class)
unfolding codes TbBlog.columns TbBlogComments.columns TbFollow.columns TbSeckillVoucher.columns
    TbShop.columns TbShopType.columns TbSign.columns TbUser.columns TbUserInfo.columns
    TbVoucher.columns TbVoucherOrder.columns User.columns
columns_of-HaveNames blog = ground arith
columns_of-HaveNames blog_comments = ground arith
columns_of-HaveNames follow = ground arith
columns_of-HaveNames seckill_voucher = ground arith
columns_of-HaveNames shop = ground arith
columns_of-HaveNames shop_type = ground arith
columns_of-HaveNames sign = ground arith
columns_of-HaveNames user = ground arith
columns_of-HaveNames user_info = ground arith
columns_of-HaveNames voucher = ground arith
columns_of-HaveNames voucher_order = ground arith
columns_of-HaveNames account = ground arith
