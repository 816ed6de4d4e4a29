-- ===== src/Server/Accounts/Lockout.antt =====
-- internal/wxserver and internal/backend/backend.go: a player whom the console disables.
pub mod Auth
use mr1v.Base.{
  ℕ, ◌≡◌, ◌≢◌, refl, sym, ◌∙◌, Bool, true, false, not, ◌&&◌, ◌||◌, Option, none, some, some_inj,
  none≢some, List, [], ◌∷◌, String, str_eq, eq_iff, ap, select, true≢false, false≢true, All,
  Bool-cases, Option-cases, inl, inr, ◌⊎◌, find_first, if◌then◌else◌, arith,
}
use mr1v.Server.Room.{Role}
use mr1v.Server.Rooms.{Room, update_where, affects}
use mr1v.Server.Rooms.Handlers.{ok_reply, fail}
use mr1v.Server.Rows.{All-select, All-update_where, affects-update_where}
use mr1v.Server.Accounts.{
  User, Session, Tables, is_user, is_token, has_user, is_enabled, set_users, session_user, user_of,
  with_disabled, if_enabled, resolve_session, get_openid_by_token, get_user, steam_id_taken,
  create_session, submit_feedback, upsert_user, update_steam_id, update_profile, update_nickname,
}
use mr1v.Server.Accounts.Handlers.{
  Entry, passes, refuses, entry, auth, is_disabled, login_end, room_ws, admits, admission,
}
use mr1v.Server.Accounts.Manage.{Patch, patched, is_given, without, update_wx_user, delete_wx_user}
use mr1v.Server.Accounts.Steps.{
  Statement, upserts, starts_session, sends_feedback, sets_steam_id, sets_profile, sets_nickname,
  updates, deletes, kept, run, run_all,
}

-- No statement of the console sets the status of the player or deletes him.
abbrev pub sets_status : Option Patch → Bool
sets_status none = false
sets_status (some p) = is_given p.status

abbrev pub leaves_alone : String → Statement → Bool
leaves_alone openid (updates ok o patch now) = not (str_eq o openid && sets_status patch)
leaves_alone openid (deletes ok o) = not (str_eq o openid)
leaves_alone openid _ = true

module _ (openid : String) where
  abbrev pub Barred : User → Type 0
  Barred u = is_user openid u ≡ true → is_enabled u ≡ false

  abbrev pub IsLocked : Tables → Type 0
  IsLocked t = All Barred t.users × (has_user openid t ≡ true)

  set_users-IsLocked :
      (test : User → Bool) (f : User → User) (t : Tables)
      → ((u : User) → test u ≡ true → Barred u → Barred (f u))
      → ((u : User) → is_user openid (f u) ≡ is_user openid u)
      → IsLocked t
      → IsLocked (set_users test f t)
  set_users-IsLocked test f t keep same (h, e) = (
    All-update_where test f Barred keep t.users h,
    affects-update_where test f (is_user openid) same t.users ∙ e,
  )

  pub affects-select :
      (o : String) (users : List User)
      → str_eq o openid ≡ false
      → affects (is_user openid) (select (λ u. not (is_user o u)) users)
        ≡ affects (is_user openid) users
  affects-select o [] other = refl
  affects-select o (u ∷ users) other = ground (
    arith,
    affects-select o users other,
    eq_iff u.openid o,
    eq_iff u.openid openid,
    eq_iff o openid,
  )

  upsert_user-IsLocked :
      (o nickname avatar : String) (now : ℕ) (t : Tables)
      → IsLocked t
      → IsLocked (upsert_user o nickname avatar now t)
  unfolding upsert_user
  upsert_user-IsLocked o nickname avatar now t (h, e) = elim (Bool-cases (has_user o t)) [
    | inl there ↦ rw there (set_users-IsLocked _ _ t (λ u hit b. b) (λ u. refl) (h, e))
    | inr gone ↦ rw gone (
      (
        λ same.
            absurd
              (true≢false (sym e ∙ ap (λ k. has_user k t) (sym ((eq_iff o openid).0 same)) ∙ gone)),
        h,
      ),
      ground (arith, e),
    )
  ]

  either-IsLocked :
      (xs ys t : Tables) → (xs ≡ t) ⊎ (xs ≡ ys) → IsLocked t → IsLocked ys → IsLocked xs
  either-IsLocked xs ys t (inl e) w v = rw e w
  either-IsLocked xs ys t (inr e) w v = rw e v

  patched-Barred :
      (o : String) (p : Patch) (now : ℕ) (u : User)
      → (str_eq o openid && is_given p.status) ≡ false
      → is_user o u ≡ true
      → is_user openid u ≡ true
      → is_enabled u ≡ false
      → is_enabled (patched p now u) ≡ false
  patched-Barred o p now u alone hit same b = elim (Option-cases p.status) [
    | inl e ↦ rw e b
    | inr (s, e) ↦
        absurd
          (ground (arith, alone, e, eq_iff u.openid o, eq_iff u.openid openid, eq_iff o openid))
  ]

  update_wx_user-IsLocked :
      (ok : Bool) (now : ℕ) (o : String) (patch : Option Patch) (t : Tables)
      → (str_eq o openid && sets_status patch) ≡ false
      → IsLocked t
      → IsLocked (update_wx_user ok now o patch t).1
  unfolding update_wx_user
  update_wx_user-IsLocked ok now o none t alone w = w
  update_wx_user-IsLocked ok now o (some p) t alone w =
      either-IsLocked (update_wx_user ok now o (some p) t).1
        (set_users (is_user o) (patched p now) t) t (ground arith) w
        (set_users-IsLocked (is_user o) (patched p now) t
          (λ u hit b same. patched-Barred o p now u alone hit same (b same)) (λ u. refl) w)

  delete_wx_user-IsLocked :
      (ok : ℕ → Bool) (o : String) (t : Tables)
      → str_eq o openid ≡ false
      → IsLocked t
      → IsLocked (delete_wx_user ok o t []).1
  unfolding delete_wx_user
  delete_wx_user-IsLocked ok o t other w =
      either-IsLocked (delete_wx_user ok o t []).1 (without o t) t (ground arith) w
        (All-select Barred _ t.users w.0, affects-select o t.users other ∙ w.1)

  pub same_users-IsLocked : (xs t : Tables) → xs.users ≡ t.users → IsLocked t → IsLocked xs
  same_users-IsLocked xs t e w = rw e w

  run-IsLocked :
      (s : Statement) (t : Tables) → leaves_alone openid s ≡ true → IsLocked t → IsLocked (run s t)
  unfolding run create_session submit_feedback update_steam_id update_profile update_nickname
  run-IsLocked (upserts o nickname avatar now) t alone w =
      upsert_user-IsLocked o nickname avatar now t w
  run-IsLocked (starts_session token o now) t alone w =
      same_users-IsLocked (kept (create_session token o now t) t) t (ground arith) w
  run-IsLocked (sends_feedback o content now) t alone w =
      same_users-IsLocked (kept (submit_feedback o content now t) t) t (ground arith) w
  run-IsLocked (sets_steam_id o steam_id now) t alone w =
      elim (Bool-cases (steam_id_taken o steam_id t)) [
        | inl e ↦ rw e w
        | inr e ↦ rw e (set_users-IsLocked _ _ t (λ u hit b. b) (λ u. refl) w)
      ]
  run-IsLocked (sets_profile o avatar nickname now) t alone w =
      set_users-IsLocked _ _ t (λ u hit b. b) (λ u. refl) w
  run-IsLocked (sets_nickname o nickname now) t alone w =
      set_users-IsLocked _ _ t (λ u hit b. b) (λ u. refl) w
  run-IsLocked (updates ok o patch now) t alone w =
      update_wx_user-IsLocked ok now o patch t (ground (arith, alone)) w
  run-IsLocked (deletes ok o) t alone w = delete_wx_user-IsLocked ok o t (ground (arith, alone)) w

  pub run_all-IsLocked :
      (later : List Statement) (t : Tables)
      → All (λ s. leaves_alone openid s ≡ true) later
      → IsLocked t
      → IsLocked (run_all later t)
  unfolding run_all
  run_all-IsLocked [] t alone w = w
  run_all-IsLocked (s ∷ later) t (a, alone) w =
      run_all-IsLocked later (run s t) alone (run-IsLocked s t a w)

  pub locked_user :
      (users : List User)
      → All Barred users
      → affects (is_user openid) users ≡ true
      → (u : User) × (find_first (is_user openid) users ≡ some u) × (is_enabled u ≡ false)
  locked_user [] h e = absurd (false≢true e)
  locked_user (u ∷ users) (b, h) e = elim (Bool-cases (is_user openid u)) [
    | inl hit ↦ (u, rw hit refl, b hit)
    | inr miss ↦ rw miss (locked_user users h (ground (arith, miss, e)))
  ]
