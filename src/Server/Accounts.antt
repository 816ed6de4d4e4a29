-- ===== src/Server/Accounts.antt =====
-- internal/wxserver/store/store.go: the tables wx_users, wx_sessions and wx_feedback and the statements
-- on them. `Handlers` has the requests of players,
-- `Manage` those of the backend, `Steps` the statements in any order. The order of rows means nothing, and a new
-- row stands first.
pub mod Handlers
pub mod Manage
pub mod Steps
pub mod Lockout
pub mod Undeletable
pub mod Delete
pub mod Page
pub mod Integrity
use mr1v.Base.{
  ℕ, Bool, true, false, not, ◌&&◌, ◌||◌, Option, none, some, List, [], ◌∷◌, String, str_eq,
  find_first, if◌then◌else◌,
}
use mr1v.Js.Text.{Text}
use mr1v.Server.Rooms.{update_where, affects}

pub record User : Type 0 where
  pub openid : String
  pub steam_id : String
  pub nickname : String
  pub avatar_url : String
  pub status : String
  pub created_at : ℕ
  pub updated_at : ℕ

pub record Session : Type 0 where
  pub token : String
  pub openid : String
  pub created_at : ℕ

pub record Feedback : Type 0 where
  pub openid : String
  pub content : Text
  pub created_at : ℕ

pub record Tables : Type 0 where
  pub users : List User
  pub sessions : List Session
  pub feedback : List Feedback

abbrev pub is_user : String → User → Bool
is_user openid u = str_eq u.openid openid

abbrev pub is_token : String → Session → Bool
is_token token s = str_eq s.token token

abbrev pub is_enabled : User → Bool
is_enabled u = str_eq u.status "enabled"

abbrev pub has_user : String → Tables → Bool
has_user openid t = affects (is_user openid) t.users

abbrev pub set_users : (User → Bool) → (User → User) → Tables → Tables
set_users test f t = record t { users = update_where test f t.users }

unfoldable pub submit_feedback : String → Text → ℕ → Tables → Option Tables
submit_feedback openid content now t =
    let f : Feedback = record { openid = openid; content = content; created_at = now } in
    if has_user openid t then some (record t { feedback = f ∷ t.feedback }) else none

-- `none` is an openid that is no user's; a token that is there keeps its row.
unfoldable pub create_session : String → String → ℕ → Tables → Option Tables
create_session token openid now t =
    let s : Session = record { token = token; openid = openid; created_at = now } in
    if affects (is_token token) t.sessions
    then some t
    else if has_user openid t
    then some (record t { sessions = s ∷ t.sessions })
    else none

-- `wx_sessions s JOIN wx_users u ON u.openid = s.openid`, the row of a token: `s.openid` and `u`.
abbrev pub with_openid : String → Option User → Option (String × User)
with_openid openid none = none
with_openid openid (some u) = some (openid, u)

abbrev pub user_of : Option Session → Tables → Option (String × User)
user_of none t = none
user_of (some s) t = with_openid s.openid (find_first (is_user s.openid) t.users)

unfoldable pub session_user : String → Tables → Option (String × User)
session_user token t = user_of (find_first (is_token token) t.sessions) t

abbrev pub if_enabled : Option (String × User) → Option String
if_enabled none = none
if_enabled (some (openid, u)) = if is_enabled u then some openid else none

unfoldable pub get_openid_by_token : String → Tables → Option String
unfolding session_user
get_openid_by_token token t = if_enabled (session_user token t)

-- The openid, and whether the user is disabled.
abbrev pub with_disabled : Option (String × User) → Option (String × Bool)
with_disabled none = none
with_disabled (some (openid, u)) = some (openid, not (is_enabled u))

unfoldable pub resolve_session : String → Tables → Option (String × Bool)
unfolding session_user
resolve_session token t = with_disabled (session_user token t)

unfoldable pub get_user : String → Tables → Option User
get_user openid t = find_first (is_user openid) t.users

abbrev pub new_user : String → String → String → ℕ → User
new_user openid nickname avatar now = record {
  openid = openid;
  steam_id = "";
  nickname = nickname;
  avatar_url = avatar;
  status = "enabled";
  created_at = now;
  updated_at = now;
}

-- The second statement of `UpsertUser`; `nickname` and `avatar` are the random ones.
unfoldable pub upsert_user : String → String → String → ℕ → Tables → Tables
upsert_user openid nickname avatar now t =
    if has_user openid t
    then set_users (is_user openid) (λ u. record u { updated_at = now }) t
    else record t { users = new_user openid nickname avatar now ∷ t.users }

-- The index wx_users_steam_id_unique refuses the text for this user.
abbrev pub steam_id_taken : String → String → Tables → Bool
steam_id_taken openid steam_id t =
    not (str_eq steam_id "")
    && has_user openid t
    && affects (λ u. str_eq u.steam_id steam_id && not (is_user openid u)) t.users

-- `none` is ErrSteamIDTaken.
unfoldable pub update_steam_id : String → String → ℕ → Tables → Option Tables
update_steam_id openid steam_id now t =
    if steam_id_taken openid steam_id t
    then none
    else some
        (set_users (is_user openid) (λ u. record u { steam_id = steam_id; updated_at = now }) t)

unfoldable pub update_profile : String → String → String → ℕ → Tables → Tables
update_profile openid avatar nickname now =
    set_users (is_user openid)
      λ u. record u { avatar_url = avatar; nickname = nickname; updated_at = now }

unfoldable pub update_nickname : String → String → ℕ → Tables → Tables
update_nickname openid nickname now =
    set_users (is_user openid) (λ u. record u { nickname = nickname; updated_at = now })
