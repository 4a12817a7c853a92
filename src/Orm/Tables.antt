-- ===== src/Orm/Tables.antt =====
-- The classes of the two programs, each its table of columns.
pub mod TbBlog
pub mod TbBlogComments
pub mod TbFollow
pub mod TbSeckillVoucher
pub mod TbShop
pub mod TbShopType
pub mod TbSign
pub mod TbUser
pub mod TbUserInfo
pub mod TbVoucher
pub mod TbVoucherOrder
pub mod User
