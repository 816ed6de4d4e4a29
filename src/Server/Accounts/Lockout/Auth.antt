-- ===== src/Server/Accounts/Lockout/Auth.antt =====
-- internal/wxserver/handlers: what a player who is locked out is told.
use mr1v.Base.{
  ℕ, ◌≡◌, ◌≢◌, refl, sym, ◌∙◌, Bool, true, false, Option, none, some, some_inj, none≢some, List, [],
  ◌∷◌, String, str_eq, eq_iff, true≢false, false≢true, All, Bool-cases, Option-cases, inl, inr, ◌⊎◌,
  find_first, arith,
}
use mr1v.Server.Room.{Role}
use mr1v.Server.Rooms.{Room, update_where}
use mr1v.Server.Rooms.Handlers.{ok_reply, fail}
use mr1v.Server.Rows.{affects-update_where}
use mr1v.Server.Accounts.{
  User, Session, Tables, is_user, is_token, is_enabled, set_users, session_user, user_of,
  with_disabled, if_enabled, resolve_session, get_openid_by_token, get_user,
}
use mr1v.Server.Accounts.Handlers.{
  passes, refuses, entry, auth, login_end, room_ws, admits, admission,
}
use mr1v.Server.Accounts.Manage.{Patch, patched, update_wx_user}
use mr1v.Server.Accounts.Steps.{Statement, run_all}
use mr1v.Server.Accounts.Lockout.{
  leaves_alone, Barred, IsLocked, run_all-IsLocked, locked_user, same_users-IsLocked,
}

abbrev pub whose : Option (String × User) → Option String
whose none = none
whose (some (openid, u)) = some openid

module _ (openid : String) where
  -- A session of the player finds him disabled; any other finds none or another player.
  abbrev pub Excluded : Option (String × User) → Type 0
  Excluded found =
      ((u : User) × (found ≡ some (openid, u)) × (is_enabled u ≡ false))
      ⊎ (whose found ≢ some openid)

  user_of-Excluded : (s : Option Session) (t : Tables) → IsLocked openid t → Excluded (user_of s t)
  user_of-Excluded none t w = inr (λ e. cc)
  user_of-Excluded (some s) t (h, there) = elim (Bool-cases (str_eq s.openid openid)) [
    | inl own ↦
        let o : s.openid ≡ openid = (eq_iff s.openid openid).0 own in
        let (u, found, off) = locked_user openid t.users h there in inl (u, rw (o, found) refl, off)
    | inr other ↦ elim (Option-cases (find_first (is_user s.openid) t.users)) [
      | inl e ↦ inr (λ same. none≢some (rw e at same))
      | inr (u, e) ↦ inr λ same.
          let o : some s.openid ≡ some openid = rw e at same in
          false≢true (sym other ∙ (eq_iff s.openid openid).1 (some_inj.0 o))
    ]
  ]

  session_user-Excluded :
      (token : String) (t : Tables) → IsLocked openid t → Excluded (session_user token t)
  unfolding session_user
  session_user-Excluded token t w = user_of-Excluded (find_first (is_token token) t.sessions) t w

  entry-Excluded :
      (found : Option (String × User))
      → Excluded found
      → ((entry (with_disabled found) ≡ refuses 403) ⊎ (whose found ≢ some openid))
        × (entry (with_disabled found) ≢ passes openid)
        × (if_enabled found ≢ some openid)
  entry-Excluded found (inl (u, e, off)) = rw (e, off) (inl refl, λ h. cc, λ h. cc)
  entry-Excluded none (inr other) = (inr other, λ h. cc, λ h. cc)
  entry-Excluded (some (o, u)) (inr other) = elim (Bool-cases (is_enabled u)) [
    | inl e ↦ rw e (inr other, λ h. other cc, λ h. other cc)
    | inr e ↦ rw e (inr other, λ h. cc, λ h. cc)
  ]

  admission-openid :
      (found : Option String) (room : Option Room) (role : Role)
      → admission found room ≡ admits role openid
      → found ≡ some openid
  admission-openid none room role e = cc
  admission-openid (some o) none role e = cc
  admission-openid (some o) (some r) role e = ground (arith, e)

  locked-login_end :
      (ok : ℕ → Bool) (now : ℕ) (new : String) (after rows : Tables)
      → ok 2 ≡ true
      → IsLocked openid after
      → login_end ok now new openid after rows ≡ (fail 403, rows)
  unfolding login_end get_user
  locked-login_end ok now new after rows asked (h, there) =
      let (u, found, off) = locked_user openid after.users h there in rw (found, asked, off) refl

  disabled_rows :
      (p : Patch) (now : ℕ) (users : List User)
      → p.status ≡ some "disabled"
      → All (Barred openid) (update_where (is_user openid) (patched p now) users)
  disabled_rows p now [] off = tt
  disabled_rows p now (u ∷ users) off = elim (Bool-cases (is_user openid u)) [
    | inl e ↦ rw e (λ same. rw off refl, disabled_rows p now users off)
    | inr e ↦ rw e (λ same. absurd (true≢false (sym same ∙ e)), disabled_rows p now users off)
  ]

  update_wx_user-disables :
      (p : Patch) (now : ℕ) (t : Tables)
      → p.status ≡ some "disabled"
      → (update_wx_user true now openid (some p) t).0 ≡ ok_reply
      → IsLocked openid (update_wx_user true now openid (some p) t).1
  unfolding update_wx_user
  update_wx_user-disables p now t off done =
      let set : IsLocked openid (set_users (is_user openid) (patched p now) t) = (
        disabled_rows p now t.users off,
        affects-update_where (is_user openid) (patched p now) (is_user openid) (λ u. refl) t.users
            ∙ ground (arith, off, done),
      ) in
      same_users-IsLocked openid (update_wx_user true now openid (some p) t).1
        (set_users (is_user openid) (patched p now) t) (ground (arith, off, done)) set

-- A player whom the console has disabled stays locked out as long as the console sets no status of
-- his and does not delete him, whatever other statements run, his own logins included: a token of his
-- is refused with 403, no token passes for him, he gets into no room, and a login whose query does
-- not fail is refused with 403 and starts no session.
pub update_wx_user-auth :
    (now : ℕ) (openid : String) (patch : Patch) (t : Tables) (later : List Statement)
    (token : String) (ok : ℕ → Bool) (at : ℕ) (new : String) (room : Option Room) (role : Role)
    (rows : Tables)
    → patch.status ≡ some "disabled"
    → (update_wx_user true now openid (some patch) t).0 ≡ ok_reply
    → All (λ s. leaves_alone openid s ≡ true) later
    → ok 2 ≡ true
    → let after = run_all later (update_wx_user true now openid (some patch) t).1 in
      ((auth token after ≡ refuses 403) ⊎ (whose (session_user token after) ≢ some openid))
      × (auth token after ≢ passes openid)
      × (get_openid_by_token token after ≢ some openid)
      × (room_ws token room after ≢ admits role openid)
      × (login_end ok at new openid after rows ≡ (fail 403, rows))
unfolding auth resolve_session get_openid_by_token room_ws
update_wx_user-auth now openid patch t later token ok at new room role rows off done alone asked =
    let w =
      run_all-IsLocked openid later (update_wx_user true now openid (some patch) t).1 alone
        (update_wx_user-disables openid patch now t off done) in
    let after = run_all later (update_wx_user true now openid (some patch) t).1 in
    let (a, b, c) =
      entry-Excluded openid (session_user token after)
        (session_user-Excluded openid token after w) in
    (
      a,
      b,
      c,
      λ e. c (admission-openid openid (if_enabled (session_user token after)) room role e),
      locked-login_end openid ok at new after rows asked w,
    )
