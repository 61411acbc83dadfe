-- ===== src/Models/Channels.antt =====
-- models/channel.rs: channels, memberships, their requests and read receipts.
use rsmc_engine.Base.{ℕ, Bool, true, Option, none, some, List, Text, ◌&&◌, leb, length}
use rsmc_engine.Models.Users.{MemberRole}

pub data ChannelType : Type 0 where
  public_ch private_ch direct group : ChannelType

pub record Channel : Type 0 where
  pub id : ℕ
  pub name : Option Text
  pub topic : Option Text
  pub channel_type : ChannelType
  pub created_by : ℕ
  pub created_at : ℕ
  pub updated_at : ℕ

pub record ChannelMember : Type 0 where
  pub channel_id : ℕ
  pub user_id : ℕ
  pub role : MemberRole
  pub last_read_at : Option ℕ
  pub joined_at : ℕ

pub record CreateChannelRequest : Type 0 where
  pub name : Text
  pub topic : Option Text
  pub is_private : Bool
  pub member_ids : List ℕ

pub record UpdateChannelRequest : Type 0 where
  pub name : Option Text
  pub topic : Option Text

pub record ReadReceipt : Type 0 where
  pub user_id : ℕ
  pub last_read_at : ℕ

pub record ChannelWithMeta : Type 0 where
  pub channel : Channel
  pub unread_count : ℕ
  pub last_read_at : Option ℕ

abbrev within : ℕ → ℕ → Option Text → Bool
within lo hi none = true
within lo hi (some t) = leb lo (length t) && leb (length t) hi

unfoldable pub valid_create : CreateChannelRequest → Bool
valid_create req = (leb 1 (length req.name) && leb (length req.name) 80) && within 0 255 req.topic

unfoldable pub valid_update : UpdateChannelRequest → Bool
valid_update req = within 1 80 req.name && within 0 255 req.topic
