-- ===== src/Server/Accounts/Steps.antt =====
-- internal/wxserver/store/store.go and internal/backend/backend.go: the statements on users, sessions
-- and feedback one by one. The statements of several requests may interleave in any order, and each
-- is what a handler runs with arguments that its queries may have found in any earlier table.
use mr1v.Base.{ℕ, Bool, Option, none, some, List, [], ◌∷◌, String}
use mr1v.Js.Text.{Text}
use mr1v.Server.Accounts.{
  Tables, create_session, submit_feedback, upsert_user, update_steam_id, update_profile,
  update_nickname,
}
use mr1v.Server.Accounts.Manage.{Patch, update_wx_user, delete_wx_user}

-- The tables of rooms are left out; the statements on users do not read them.
pub data Statement : Type 0 where
  upserts : (openid nickname avatar : String) (now : ℕ) → Statement
  starts_session : (token openid : String) (now : ℕ) → Statement
  sends_feedback : (openid : String) (content : Text) (now : ℕ) → Statement
  sets_steam_id : (openid steam_id : String) (now : ℕ) → Statement
  sets_profile : (openid avatar nickname : String) (now : ℕ) → Statement
  sets_nickname : (openid nickname : String) (now : ℕ) → Statement
  updates : (ok : Bool) (openid : String) (patch : Option Patch) (now : ℕ) → Statement
  deletes : (ok : ℕ → Bool) (openid : String) → Statement

-- A statement that is refused changes nothing.
abbrev pub kept : Option Tables → Tables → Tables
kept none t = t
kept (some t') t = t'

unfoldable pub run : Statement → Tables → Tables
unfolding create_session submit_feedback upsert_user update_steam_id update_profile update_nickname
    update_wx_user delete_wx_user
run (upserts openid nickname avatar now) t = upsert_user openid nickname avatar now t
run (starts_session token openid now) t = kept (create_session token openid now t) t
run (sends_feedback openid content now) t = kept (submit_feedback openid content now t) t
run (sets_steam_id openid steam_id now) t = kept (update_steam_id openid steam_id now t) t
run (sets_profile openid avatar nickname now) t = update_profile openid avatar nickname now t
run (sets_nickname openid nickname now) t = update_nickname openid nickname now t
run (updates ok openid patch now) t = (update_wx_user ok now openid patch t).1
run (deletes ok openid) t = (delete_wx_user ok openid t []).1

unfoldable pub run_all : List Statement → Tables → Tables
unfolding run
run_all [] t = t
run_all (s ∷ rest) t = run_all rest (run s t)
