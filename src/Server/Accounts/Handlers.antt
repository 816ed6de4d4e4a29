-- ===== src/Server/Accounts/Handlers.antt =====
-- internal/wxserver/handlers/auth.go, middleware.go, user.go, legacy.go and RoomWS of rooms.go. `ok` says whether a statement that no
-- constraint refuses succeeds.
use mr1v.Base.{ℕ, Bool, false, not, ◌&&◌, ◌||◌, Option, none, some, String, str_eq, if◌then◌else◌}
use mr1v.Js.Text.{Text, is_empty}
use mr1v.Server.Room.{Role, creator, joiner}
use mr1v.Server.Rooms.{Room, is_joiner}
use mr1v.Server.Rooms.Handlers.{Reply, ok_reply, fail, trim_space}
use mr1v.Server.Accounts.{
  User, Tables, has_user, is_enabled, create_session, submit_feedback, resolve_session,
  get_openid_by_token, get_user, upsert_user, update_steam_id, update_profile, update_nickname,
}

-- What a request that needs a player is told, or whose it is.
pub data Entry : Type 0 where
  passes : String → Entry
  refuses : ℕ → Entry

abbrev pub entry : Option (String × Bool) → Entry
entry none = refuses 401
entry (some (openid, disabled)) = if disabled then refuses 403 else passes openid

unfoldable pub auth : (token : String) → Tables → Entry
unfolding resolve_session
auth token t = entry (resolve_session token t)

-- The openid of a request that anyone may make.
unfoldable pub optional_auth : (token : String) → Tables → Option String
unfolding get_openid_by_token
optional_auth token t = if str_eq token "" then none else get_openid_by_token token t

unfoldable pub internal_auth : (key given : String) → Bool
internal_auth key given = not (str_eq key "" || not (str_eq given key))

-- `Login` up to its record of the user: the openid and whether it is new.
pub data Begun : Type 0 where
  refused : ℕ → Begun
  recorded : String → Bool → Begun

module _ (ok : ℕ → Bool) (now : ℕ) where
  -- `code` is none where the body does not parse, `fetched` what `fetchOpenID` makes of the code, and
  -- `seen` the table of the first query.
  unfoldable pub login_begin :
      (code : Option String)
      → (String → Option String)
      → (nickname avatar : String) → (seen : Tables) → Tables
      → Begun × Tables
  unfolding upsert_user
  login_begin none fetched nickname avatar seen t = (refused 400, t)
  login_begin (some code) fetched nickname avatar seen t = elim (fetched code) [
    | none ↦ (refused 500, t)
    | some openid ↦
        if ok 0 && ok 1
        then (
          recorded openid (not (has_user openid seen)),
          upsert_user openid nickname avatar now t,
        )
        else (refused 500, t)
  ]

  abbrev pub is_disabled : Option User → Bool
  is_disabled none = false
  is_disabled (some u) = not (is_enabled u)

  abbrev pub granted : Option Tables → Tables → Reply × Tables
  granted none t = (fail 500, t)
  granted (some t') t = (ok_reply, t')

  -- The rest of `Login`; `seen` is the table of `GetUser`, whose failure is not looked at.
  unfoldable pub login_end : (token openid : String) → (seen : Tables) → Tables → Reply × Tables
  unfolding get_user create_session
  login_end token openid seen t =
      if ok 2 && is_disabled (get_user openid seen)
      then (fail 403, t)
      else if ok 3
      then granted (create_session token openid now t) t
      else (fail 500, t)

  abbrev pub steam_id_reply : Option Tables → Tables → Reply × Tables
  steam_id_reply none t = (fail 409, t)
  steam_id_reply (some t') t = if ok 0 then (ok_reply, t') else (fail 500, t)

  -- The requests of a player; `none` is a body that does not parse.
  unfoldable pub steam_id_request : (openid : String) → Option String → Tables → Reply × Tables
  unfolding update_steam_id
  steam_id_request openid none t = (fail 400, t)
  steam_id_request openid (some s) t =
      if str_eq s "" then (fail 400, t) else steam_id_reply (update_steam_id openid s now t) t

  unfoldable pub profile_request :
      (openid : String) → Option (String × String) → Tables → Reply × Tables
  unfolding update_profile
  profile_request openid none t = (fail 400, t)
  profile_request openid (some (avatar, nickname)) t =
      if ok 0 then (ok_reply, update_profile openid avatar nickname now t) else (fail 500, t)

  unfoldable pub feedback_request : (openid : String) → Option Text → Tables → Reply × Tables
  unfolding submit_feedback trim_space
  feedback_request openid none t = (fail 400, t)
  feedback_request openid (some content) t =
      if is_empty (trim_space content)
      then (fail 400, t)
      else if ok 0
      then granted (submit_feedback openid (trim_space content) now t) t
      else (fail 500, t)

  -- What `GetLegacyPlayerByID` finds: a name and the address of a photo.
  abbrev pub follow_legacy : String → Option (String × String) → Tables → Tables
  follow_legacy openid none t = t
  follow_legacy openid (some (name, photo)) t =
      if not (ok 1)
      then t
      else if str_eq photo ""
      then update_nickname openid name now t
      else update_profile openid photo name now t

  -- `BindLegacyPlayer`.
  unfoldable pub bind_request :
      (openid : String)
      → Option String
      → (legacy : Option (String × String)) → Tables
      → Reply × Tables
  unfolding steam_id_request update_nickname update_profile
  bind_request openid q legacy t =
      let bound = steam_id_request openid q t in
      elim bound.0 [
        | ok_reply ↦ (ok_reply, follow_legacy openid legacy bound.1)
        | fail code ↦ (fail code, t)
      ]

-- `RoomWS` up to its connection: the code of its refusal, or who connects in which role.
pub data Admission : Type 0 where
  turned_away : ℕ → Admission
  admits : Role → String → Admission

abbrev pub role_in : String → Room → Admission
role_in openid r =
    if str_eq r.creator_openid openid
    then admits creator openid
    else if is_joiner openid r.joiner_openid
    then admits joiner openid
    else turned_away 403

abbrev pub role_seen : String → Option Room → Admission
role_seen openid none = turned_away 404
role_seen openid (some r) = role_in openid r

abbrev pub admission : Option String → Option Room → Admission
admission none room = turned_away 401
admission (some openid) room = role_seen openid room

-- The second argument is what `GetRoom` finds, `none` also where it fails.
unfoldable pub room_ws : (token : String) → Option Room → Tables → Admission
unfolding get_openid_by_token
room_ws token room t = admission (get_openid_by_token token t) room
