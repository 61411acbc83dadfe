-- ===== src/Handlers/Auth/Store.antt =====
-- handlers/auth.rs and migrations/: the statements on users and refresh tokens.
use rsmc_engine.Base.{
  ℕ, Bool, true, false, not, ◌&&◌, ◌||◌, Option, none, some, [], ◌∷◌, ◌++◌, ◌==◌, if◌then◌else◌,
  Text, text, text_eq, find, update_where, any,
}
use rsmc_engine.Error.{unique_violation}
use rsmc_engine.Models.{User, UserRole, SignupRequest, RefreshToken, Channel, ChannelType}
use rsmc_engine.Db.{Db, Sql, rows, fails, user_exists, references}
use rsmc_engine.App.{Env}

abbrev pub with_email : Env → Text → User → Bool
with_email e email u = text_eq (e.lower u.email) (e.lower email)

abbrev pub with_username : Env → Text → User → Bool
with_username e username u = text_eq (e.lower u.username) (e.lower username)

abbrev pub taken : Env → (email username : Text) → User → Bool
taken e email username u = with_email e email u || with_username e username u

abbrev pub by_id : ℕ → User → Bool
by_id i u = u.id == i

abbrev pub new_user : SignupRequest → (hash : Text) → UserRole → (id at : ℕ) → User
new_user req hash role id at = record {
  id = id;
  email = req.email;
  username = req.username;
  display_name = req.display_name;
  password_hash = hash;
  role = role;
  avatar_url = none;
  is_active = true;
  created_at = at;
  updated_at = at;
}

-- INSERT INTO users: the primary key and the unique indexes on LOWER(email) and LOWER(username).
unfoldable pub insert_user : Env → User → Db → Sql User
insert_user e u d =
    if any (by_id u.id) d.users || any (taken e u.email u.username) d.users
    then fails unique_violation
    else rows u (record d { users = d.users ++ u ∷ [] })

abbrev pub by_hash : Text → RefreshToken → Bool
by_hash hash t = text_eq t.token_hash hash

-- INSERT INTO refresh_tokens: the primary key and UNIQUE (token_hash).
unfoldable pub insert_token : RefreshToken → Db → Sql (Unit {0})
insert_token t d =
    if any (λ x. x.id == t.id) d.refresh_tokens || any (by_hash t.token_hash) d.refresh_tokens
    then fails unique_violation
    else references (user_exists t.user_id d)
        (rows tt (record d { refresh_tokens = d.refresh_tokens ++ t ∷ [] }))

abbrev pub revoke : RefreshToken → RefreshToken
revoke t = record t { revoked = true }

-- UPDATE refresh_tokens SET revoked = TRUE WHERE token_hash = $1
unfoldable pub revoke_hash : Text → Db → Sql (Unit {0})
revoke_hash hash d =
    rows tt (record d { refresh_tokens = update_where (by_hash hash) revoke d.refresh_tokens })

-- … WHERE user_id = $1 AND NOT revoked
unfoldable pub revoke_all : (user_id : ℕ) → Db → Sql (Unit {0})
revoke_all u d = rows tt (record d {
  refresh_tokens = update_where (λ t. t.user_id == u && not t.revoked) revoke d.refresh_tokens;
})

abbrev is_public : ChannelType → Bool
is_public ChannelType.public_ch = true
is_public _ = false

abbrev is_named : Text → Option Text → Bool
is_named name none = false
is_named name (some n) = text_eq n name

abbrev default_name : Text
default_name = text "general"

-- SELECT id FROM channels WHERE name = 'general' AND channel_type = 'public'
unfoldable pub default_channel : Db → Option Channel
default_channel d = find (λ c. is_named default_name c.name && is_public c.channel_type) d.channels

abbrev pub general : (id user_id at : ℕ) → Channel
general id user_id at = record {
  id = id;
  name = some default_name;
  topic = some (text "Workspace-wide channel for everyone");
  channel_type = ChannelType.public_ch;
  created_by = user_id;
  created_at = at;
  updated_at = at;
}
