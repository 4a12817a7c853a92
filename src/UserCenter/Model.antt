-- ===== src/UserCenter/Model.antt =====
-- models/User.h and User.cc: a row of the table `user`, and the JSON that a client receives.
use project_collection.Base.{Option, none, some}
use project_collection.Base.Int.{ℤ}
use project_collection.Base.Text.{Text, codes}
use project_collection.Common.{Json, null, int, str, obj, end, field}

pub record User : Type 0 where
  pub username : Option Text
  pub id : Option ℤ
  pub user_account : Option Text
  pub avatar_url : Option Text
  pub gender : Option ℤ
  pub user_password : Option Text
  pub iphone : Option Text
  pub email : Option Text
  pub user_status : Option ℤ
  pub create_time : Option ℤ
  pub update_time : Option ℤ
  pub id_delete : Option ℤ
  pub user_role : Option ℤ
  pub planet_code : Option Text

-- The default constructor: no column is set.
abbrev pub no_account : User
no_account = record {
  username = none;
  id = none;
  user_account = none;
  avatar_url = none;
  gender = none;
  user_password = none;
  iphone = none;
  email = none;
  user_status = none;
  create_time = none;
  update_time = none;
  id_delete = none;
  user_role = none;
  planet_code = none;
}

abbrev pub text_json : Option Text → Json
text_json none = null
text_json (some t) = str t

abbrev pub number_json : Option ℤ → Json
number_json none = null
number_json (some n) = int n

-- `Date::toDbStringLocal` of trantor is a parameter.
abbrev pub date_json : (ℤ → Text) → Option ℤ → Json
date_json date_text none = null
date_json date_text (some t) = str (date_text t)

-- `User::toJson`
unfoldable pub user_to_json : (ℤ → Text) → User → Json
user_to_json date_text u = obj (
    field (codes "username") (text_json u.username) (
      field (codes "id") (number_json u.id) (
        field (codes "userAccount") (text_json u.user_account) (
          field (codes "avatarUrl") (text_json u.avatar_url) (
            field (codes "gender") (number_json u.gender) (
              field (codes "userPassword") (text_json u.user_password) (
                field (codes "iphone") (text_json u.iphone) (
                  field (codes "email") (text_json u.email) (
                    field (codes "userStatus") (number_json u.user_status) (
                      field (codes "createTime") (date_json date_text u.create_time) (
                        field (codes "updateTime") (date_json date_text u.update_time) (
                          field (codes "idDelete") (number_json u.id_delete) (
                            field (codes "userRole") (number_json u.user_role) (
                              field (codes "planetCode") (text_json u.planet_code) end))))))))))))))
