-- ===== src/Models/Users.antt =====
-- models/user.rs: system roles, permissions, channel roles, the user row and its public view.
use rsmc_engine.Base.{ℕ, Bool, true, false, Option, Text}

pub data UserRole : Type 0 where
  admin member guest : UserRole

pub data Permission : Type 0 where
  manage_users create_channel delete_channel send_message : Permission
  read_message manage_own_message upload_file manage_webhooks : Permission

-- `UserRole::can`
unfoldable pub can : UserRole → Permission → Bool
can UserRole.admin perm = true
can UserRole.member Permission.create_channel = true
can UserRole.member Permission.send_message = true
can UserRole.member Permission.upload_file = true
can UserRole.member Permission.read_message = true
can UserRole.member Permission.manage_own_message = true
can UserRole.member _ = false
can UserRole.guest Permission.send_message = true
can UserRole.guest Permission.read_message = true
can UserRole.guest Permission.manage_own_message = true
can UserRole.guest _ = false

pub data MemberRole : Type 0 where
  owner admin member : MemberRole

pub record User : Type 0 where
  pub id : ℕ
  pub email : Text
  pub username : Text
  pub display_name : Text
  pub password_hash : Text
  pub role : UserRole
  pub avatar_url : Option Text
  pub is_active : Bool
  pub created_at : ℕ
  pub updated_at : ℕ

pub record UserPublic : Type 0 where
  pub id : ℕ
  pub email : Text
  pub username : Text
  pub display_name : Text
  pub role : UserRole
  pub avatar_url : Option Text
  pub is_active : Bool
  pub created_at : ℕ

unfoldable pub to_public : User → UserPublic
to_public u = record {
  id = u.id;
  email = u.email;
  username = u.username;
  display_name = u.display_name;
  role = u.role;
  avatar_url = u.avatar_url;
  is_active = u.is_active;
  created_at = u.created_at;
}

pub record SignupRequest : Type 0 where
  pub email : Text
  pub username : Text
  pub display_name : Text
  pub password : Text

pub record LoginRequest : Type 0 where
  pub email : Text
  pub password : Text

pub record RefreshRequest : Type 0 where
  pub refresh_token : Text

pub record AuthResponse : Type 0 where
  pub access_token : Text
  pub refresh_token : Text
  pub token_type : Text
  pub expires_in : ℕ
  pub user : UserPublic

pub record UpdateUserRequest : Type 0 where
  pub display_name : Option Text
  pub avatar_url : Option Text
