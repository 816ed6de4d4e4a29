-- ===== src/Server/Accounts/Page.antt =====
-- pages/WxUsersPage.tsx with internal/backend/backend.go: what the page of players shows after its
-- requests were served.
use mr1v.Base.{
  ℕ, suc, zero, ◌≡◌, refl, sym, subst, Bool, true, false, none, some, List, [], ◌∷◌, map, All,
  String, str_eq, Bool-cases, inl, inr, if◌then◌else◌,
}
use mr1v.Server.Rooms.{update_where}
use mr1v.Server.Rooms.Handlers.{Reply, ok_reply}
use mr1v.Server.Accounts.{User, Tables, is_user, has_user, set_users, steam_id_taken}
use mr1v.Server.Accounts.Manage.{Patch, patched, update_wx_user, delete_wx_user}
use mr1v.Console.Users.{
  WxUser, UserValues, Page, Request, get_users, delete_user, patch_status, patch_user,
  handle_toggle_status, submit_edit, is_enabled,
}

abbrev take {ℓ} : {A : Type ℓ} → ℕ → List A → List A
take zero xs = []
take (suc n) [] = []
take (suc n) (x ∷ xs) = x ∷ take n xs

-- What the handler makes of the body of a request of the page.
abbrev status_patch : String → Patch
status_patch status = record {
  status = some status;
  steam_id = none;
  nickname = none;
  avatar_url = none;
}

abbrev user_patch : UserValues → Patch
user_patch v = record {
  status = none;
  steam_id = some v.steam_id;
  nickname = some v.nickname;
  avatar_url = some v.avatar_url;
}

-- `handleListWxUsers`: at most 200 players, the newest first; `date` prints a time.
module _ (date : ℕ → String) where
  abbrev pub wx_user_row : User → WxUser
  wx_user_row u = record {
    openid = u.openid;
    steam_id = u.steam_id;
    nickname = u.nickname;
    avatar_url = u.avatar_url;
    status = u.status;
    created_at = date u.created_at;
    updated_at = date u.updated_at;
  }

  unfoldable pub list_wx_users : Tables → List WxUser
  list_wx_users t = map wx_user_row (take 200 t.users)

-- A request of the page, served while the database answers: the code of the reply, and the tables.
unfoldable pub serve : ℕ → Request → Tables → Reply × Tables
unfolding update_wx_user delete_wx_user
serve now get_users t = (ok_reply, t)
serve now (delete_user openid) t = let d = delete_wx_user (λ n. true) openid t [] in (d.0, d.1)
serve now (patch_status openid status) t =
    update_wx_user true now openid (some (status_patch status)) t
serve now (patch_user openid v) t = update_wx_user true now openid (some (user_patch v)) t

unfoldable pub serve_all : ℕ → List Request → Tables → Tables
unfolding serve
serve_all now [] t = t
serve_all now (r ∷ rest) t = serve_all now rest (serve now r t).1

-- The rows of a player, changed.
abbrev pub change_rows : String → (WxUser → WxUser) → List WxUser → List WxUser
change_rows openid f rows = map (λ (r : WxUser). if str_eq r.openid openid then f r else r) rows

map-take :
    (date : ℕ → String) (openid : String) (n : ℕ) (f : User → User) (g : WxUser → WxUser)
    (users : List User)
    → ((u : User) → wx_user_row date (f u) ≡ g (wx_user_row date u))
    → map (wx_user_row date) (take n (update_where (is_user openid) f users))
      ≡ change_rows openid g (map (wx_user_row date) (take n users))
map-take date openid zero f g users same = refl
map-take date openid (suc n) f g [] same = refl
map-take date openid (suc n) f g (u ∷ users) same = elim (Bool-cases (is_user openid u)) [
  | inl e ↦ rw (e, same u, map-take date openid n f g users same) refl
  | inr e ↦ rw (e, map-take date openid n f g users same) refl
]

set_users-list_wx_users :
    (date : ℕ → String) (openid : String) (f : User → User) (g : WxUser → WxUser) (t : Tables)
    → ((u : User) → wx_user_row date (f u) ≡ g (wx_user_row date u))
    → list_wx_users date (set_users (is_user openid) f t)
      ≡ change_rows openid g (list_wx_users date t)
unfolding list_wx_users
set_users-list_wx_users date openid f g t same = map-take date openid 200 f g t.users same

abbrev pub switched : String → String → WxUser → WxUser
switched status time r = record r { status = status; updated_at = time }

abbrev pub edited : UserValues → String → WxUser → WxUser
edited v time r = record r {
  nickname = v.nickname;
  steam_id = v.steam_id;
  avatar_url = v.avatar_url;
  updated_at = time;
}

abbrev pub status_text : Bool → String
status_text on = if on then "enabled" else "disabled"

-- The switch of the row of this player is on or off as it was turned.
abbrev pub Shows : String → Bool → WxUser → Type 0
Shows openid on r = (if str_eq r.openid openid then is_enabled r.status else on) ≡ on

status_text-is_enabled : (on : Bool) → is_enabled (status_text on) ≡ on
unfolding is_enabled
status_text-is_enabled true = refl
status_text-is_enabled false = refl

row-Shows :
    (openid time : String) (on : Bool) (r : WxUser)
    → Shows openid on (if str_eq r.openid openid then switched (status_text on) time r else r)
unfolding is_enabled
row-Shows openid time on r = elim (Bool-cases (str_eq r.openid openid)) [
  | inl e ↦ rw (e, e) (status_text-is_enabled on)
  | inr e ↦ rw (e, e) refl
]

change_rows-Shows :
    (openid time : String) (on : Bool) (rows : List WxUser)
    → All (Shows openid on) (change_rows openid (switched (status_text on) time) rows)
change_rows-Shows openid time on [] = tt
change_rows-Shows openid time on (r ∷ rows) =
    (row-Shows openid time on r, change_rows-Shows openid time on rows)

module _ (date : ℕ → String) (now : ℕ) (openid : String) (t : Tables) where
  serve-patch_status :
      (status : String)
      → has_user openid t ≡ true
      → list_wx_users date (serve now (patch_status openid status) t).1
        ≡ change_rows openid (switched status (date now)) (list_wx_users date t)
  unfolding serve update_wx_user
  serve-patch_status status there = rw there (
      set_users-list_wx_users date openid (patched (status_patch status) now)
        (switched status (date now)) t (λ u. refl))

  serve-patch_user :
      (v : UserValues)
      → has_user openid t ≡ true
      → list_wx_users date (serve now (patch_user openid v) t).1 ≡ (
          if steam_id_taken openid v.steam_id t
          then list_wx_users date t
          else change_rows openid (edited v (date now)) (list_wx_users date t))
  unfolding serve update_wx_user
  serve-patch_user v there = elim (Bool-cases (steam_id_taken openid v.steam_id t)) [
    | inl e ↦ rw e refl
    | inr e ↦
        rw (e, there)
          (set_users-list_wx_users date openid (patched (user_patch v) now) (edited v (date now)) t
            (λ u. refl))
  ]

-- What the page of players asks for is what its list shows next, as long as the database answers: a
-- switch that is turned shows as it was turned, and an edit shows the values of the form, unless
-- another player has the SteamID, which leaves the list as it was; the other players stay.
pub serve_all-list_wx_users :
    (date : ℕ → String) (now : ℕ) (t : Tables) (u : WxUser) (on : Bool) (v : UserValues) (p : Page)
    → has_user u.openid t ≡ true
    → p.editing ≡ some u
    → let rows = list_wx_users date t in
      let turned = list_wx_users date (serve_all now (handle_toggle_status u on) t) in
      (turned ≡ change_rows u.openid (switched (status_text on) (date now)) rows)
      × All (Shows u.openid on) turned
      × (list_wx_users date (serve_all now (submit_edit (some v) p) t) ≡ (
          if steam_id_taken u.openid v.steam_id t
          then rows
          else change_rows u.openid (edited v (date now)) rows))
unfolding serve_all handle_toggle_status submit_edit
serve_all-list_wx_users date now t u on v p there edits =
    let turned = serve-patch_status date now u.openid t (status_text on) there in
    (
      turned,
      subst (All (Shows u.openid on)) (sym turned)
          (change_rows-Shows u.openid (date now) on (list_wx_users date t)),
      rw edits (serve-patch_user date now u.openid t v there),
    )
