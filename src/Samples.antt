-- ===== src/Samples.antt =====
-- A small workspace for the examples: three users, two channels, a thread, one open session each
-- for users 1 and 2.
use rsmc_engine.Base.{
  ℕ, zero, suc, Bool, true, false, Option, none, some, [], ◌∷◌, ◌+◌, Text, text, if◌then◌else◌, leb,
  ◌&&◌, map, text_lt, text_eq, not,
}
use rsmc_engine.Models.{
  Claims, TokenKind, JwtKeys, User, UserRole, Channel, ChannelType, ChannelMember, MemberRole,
  Message,
}
use rsmc_engine.Db.{Db}
use rsmc_engine.Hub.{Hub}
use rsmc_engine.App.{Env, World, Storage}
use rsmc_engine.Services.Access.{AuthUser}

-- ASCII letters and digits.
abbrev letter : ℕ → Bool
letter c =
    if leb b'a' c && leb c b'z'
    then true
    else if leb b'A' c && leb c b'Z'
    then true
    else leb b'0' c && leb c b'9'

abbrev small : ℕ → ℕ
small c = if leb b'A' c && leb c b'Z' then c + 32 else c

abbrev pub role_code : UserRole → ℕ
role_code UserRole.admin = 0
role_code UserRole.member = 1
role_code UserRole.guest = 2

abbrev pub role_named : ℕ → UserRole
role_named zero = UserRole.admin
role_named (suc zero) = UserRole.member
role_named (suc (suc n)) = UserRole.guest

abbrev pub kind_code : TokenKind → ℕ
kind_code TokenKind.access = 0
kind_code TokenKind.refresh = 1

abbrev pub kind_named : ℕ → TokenKind
kind_named zero = TokenKind.access
kind_named (suc n) = TokenKind.refresh

-- A token that spells out its claims.
abbrev pub spelled : Claims → Text
spelled c = c.sub ∷ role_code c.role ∷ kind_code c.tok ∷ c.jti ∷ c.exp ∷ c.iat ∷ []

abbrev pub claims_in : Text → Option Claims
claims_in (sub ∷ role ∷ tok ∷ jti ∷ exp ∷ iat ∷ []) = some (record {
  sub = sub;
  role = role_named role;
  tok = kind_named tok;
  jti = jti;
  exp = exp;
  iat = iat;
})
claims_in _ = none

abbrev pub unless_expired : ℕ → Option Claims → Option Claims
unless_expired at none = none
unless_expired at (some c) = if leb at c.exp then some c else none

abbrev pub jwt : JwtKeys
jwt = record {
  encoding = λ c. some (spelled c);
  decoding = λ at token. unless_expired at (claims_in token);
  access_ttl = 3600;
  refresh_ttl = 86400;
}

abbrev verify_salted : Text → Text → Option Bool
verify_salted plain [] = none
verify_salted plain (salt ∷ hash) = some (text_eq plain hash)

abbrev storage : Storage
storage = record {
  max_file_bytes = 1000;
  uuid_text = λ n. n ∷ [];
  dir_ready = true;
  can_create = λ name. true;
  can_write = λ name. true;
  is_header = λ s. true;
}

abbrev pub env : Env
env = record {
  new_v4 = λ n. 1000 + n;
  clock = λ n. 500 + n;
  fault = λ n. false;
  pubsub = true;
  lower = map small;
  collate = text_lt;
  to_lowercase = map small;
  is_alphanumeric = letter;
  ilike = λ pattern s. text_eq pattern s;
  jwt = jwt;
  hash_argon2 = λ salt plain. some (salt ∷ plain);
  verify_argon2 = verify_salted;
  encode_uuid = λ n. n ∷ [];
  encode_random = λ n. n ∷ [];
  to_vec = λ x. some x.event;
  is_url = λ s. not (text_eq s []);
  is_email = λ s. not (text_eq s []);
  storage = storage;
}

abbrev pub person : ℕ → Text → UserRole → User
person i name r = record {
  id = i;
  email = name;
  username = name;
  display_name = name;
  password_hash = [];
  role = r;
  avatar_url = none;
  is_active = true;
  created_at = i;
  updated_at = i;
}

abbrev pub room : ℕ → ChannelType → Channel
room i t = record {
  id = i;
  name = none;
  topic = none;
  channel_type = t;
  created_by = 1;
  created_at = 10;
  updated_at = 10;
}

abbrev pub membership : ℕ → ℕ → MemberRole → ChannelMember
membership c u r = record {
  channel_id = c;
  user_id = u;
  role = r;
  last_read_at = none;
  joined_at = 10;
}

abbrev pub note : ℕ → ℕ → Option ℕ → ℕ → Message
note i u parent replies = record {
  id = i;
  channel_id = 10;
  user_id = u;
  content = text "hello";
  parent_id = parent;
  reply_count = replies;
  edited_at = none;
  deleted_at = none;
  created_at = i;
}

abbrev pub db : Db
db = record {
  users =
      person 1 (text "Ada") UserRole.admin
      ∷ person 2 (text "bob_jones") UserRole.member
      ∷ person 3 (text "eve") UserRole.guest
      ∷ [];
  refresh_tokens = [];
  channels = room 10 ChannelType.public_ch ∷ room 11 ChannelType.direct ∷ [];
  channel_members =
      membership 10 1 MemberRole.owner
      ∷ membership 10 2 MemberRole.member
      ∷ membership 11 1 MemberRole.member
      ∷ membership 11 2 MemberRole.member
      ∷ [];
  messages = note 100 1 none 1 ∷ note 101 2 (some 100) 0 ∷ note 102 2 none 0 ∷ [];
  attachments = [];
  message_attachments = [];
  reactions = [];
  notifications = [];
  presence = [];
  webhooks = [];
  app_links = [];
}

abbrev pub hub : Hub
hub = record {
  sessions =
      (70, record { user_id = 1; tx = 7; subscriptions = 10 ∷ [] })
      ∷ (80, record { user_id = 2; tx = 8; subscriptions = 10 ∷ 11 ∷ [] })
      ∷ [];
  user_sessions = (1, 70 ∷ []) ∷ (2, 80 ∷ []) ∷ [];
}

abbrev pub world : World
world = record { db = db; hub = hub; out = []; disk = []; draws = 0; ticks = 0; stmts = 0 }

abbrev pub ada : AuthUser
ada = record { id = 1; role = UserRole.admin }

abbrev pub bob : AuthUser
bob = record { id = 2; role = UserRole.member }

abbrev pub eve : AuthUser
eve = record { id = 3; role = UserRole.guest }
