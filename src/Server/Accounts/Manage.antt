-- ===== src/Server/Accounts/Manage.antt =====
-- internal/backend/backend.go: the requests of the console that change and delete users.
use mr1v.Base.{
  ℕ, Bool, true, false, not, ◌&&◌, ◌||◌, Option, none, some, List, String, str_eq, select,
  if◌then◌else◌,
}
use mr1v.Server.Rooms.{Room, update_where, affects, is_joiner}
use mr1v.Server.Rooms.Handlers.{Reply, ok_reply, fail}
use mr1v.Server.Accounts.{
  User, Session, Feedback, Tables, is_user, has_user, set_users, steam_id_taken,
}

-- The fields of PATCH /wx-users/:openid, each `none` where it is not given.
pub record Patch : Type 0 where
  pub status : Option String
  pub steam_id : Option String
  pub nickname : Option String
  pub avatar_url : Option String

abbrev pub given : Option String → String → String
given none old = old
given (some new) old = new

abbrev pub is_given : Option String → Bool
is_given none = false
is_given (some s) = true

abbrev pub has_fields : Patch → Bool
has_fields p =
    is_given p.status || is_given p.steam_id || is_given p.nickname || is_given p.avatar_url

abbrev pub patched : Patch → ℕ → User → User
patched p now u = record u {
  status = given p.status u.status;
  steam_id = given p.steam_id u.steam_id;
  nickname = given p.nickname u.nickname;
  avatar_url = given p.avatar_url u.avatar_url;
  updated_at = now;
}

abbrev pub patch_collides : String → Option String → Tables → Bool
patch_collides openid none t = false
patch_collides openid (some s) t = steam_id_taken openid s t

-- `handleUpdateWxUser`; `none` is a body that does not parse.
unfoldable pub update_wx_user :
    (ok : Bool) (now : ℕ) (openid : String) → Option Patch → Tables → Reply × Tables
update_wx_user ok now openid none t = (fail 400, t)
update_wx_user ok now openid (some p) t =
    if not (has_fields p)
    then (fail 400, t)
    else if not ok || patch_collides openid p.steam_id t
    then (fail 500, t)
    else if has_user openid t
    then (ok_reply, set_users (is_user openid) (patched p now) t)
    else (fail 404, t)

-- The three statements of the deletion; sessions go with their user.
abbrev pub rooms_without : String → List Room → List Room
rooms_without openid rows =
    update_where (λ r. is_joiner openid r.joiner_openid) (λ r. record r { joiner_openid = none })
      (select (λ r. not (str_eq r.creator_openid openid)) rows)

abbrev pub without : String → Tables → Tables
without openid t = record t {
  users = select (λ u. not (is_user openid u)) t.users;
  sessions = select (λ (s : Session). not (str_eq s.openid openid)) t.sessions;
}

abbrev pub has_feedback : String → Tables → Bool
has_feedback openid t = affects (λ (f : Feedback). str_eq f.openid openid) t.feedback

-- `handleDeleteWxUser`, a transaction of five calls. The reference of wx_feedback to wx_users, which
-- says nothing of deletion, refuses the third statement for a user with feedback.
unfoldable pub delete_wx_user :
    (ok : ℕ → Bool) (openid : String) → Tables → List Room → Reply × Tables × List Room
delete_wx_user ok openid t rows =
    if not (ok 0 && ok 1 && ok 2 && ok 3) || has_user openid t && has_feedback openid t
    then (fail 500, t, rows)
    else if not (has_user openid t)
    then (fail 404, t, rows)
    else if ok 4
    then (ok_reply, without openid t, rooms_without openid rows)
    else (fail 500, t, rows)
