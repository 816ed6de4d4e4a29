-- ===== src/Server/Accounts/Integrity.antt =====
-- internal/wxserver/store/store.go and internal/backend/backend.go: the tables of players stay whole.
pub mod Reached
use mr1v.Base.{
  ℕ, ◌+◌, ◌≤◌, ◌≡◌, refl, sym, ap, subst, ◌∙◌, Bool, true, false, not, ◌&&◌, ◌||◌, Option, none,
  some, List, [], ◌∷◌, String, str_eq, eq_iff, All, select, Bool-cases, Option-cases, inl, inr, ◌⊎◌,
  if◌then◌else◌, arith, true≢false,
}
use mr1v.Js.Text.{Text}
use mr1v.Server.Rooms.{update_where, affects}
use mr1v.Server.Rows.{
  tally, tally-none, tally-insert, tally-select, All-select, affects-update_where,
  tally-update_where, update_where-none,
}
use mr1v.Server.Accounts.{
  User, Session, Feedback, Tables, is_user, is_token, has_user, set_users, steam_id_taken, new_user,
  create_session, submit_feedback, upsert_user, update_steam_id, update_profile, update_nickname,
}
use mr1v.Server.Accounts.Manage.{
  Patch, patched, given, patch_collides, without, has_feedback, update_wx_user, delete_wx_user,
}
use mr1v.Server.Accounts.Steps.{
  Statement, upserts, starts_session, sends_feedback, sets_steam_id, sets_profile, sets_nickname,
  updates, deletes, kept, run, run_all,
}
use mr1v.Server.Accounts.Lockout.{affects-select}

-- The player has the SteamID, which is not the empty text.
abbrev pub has_steam_id : String → User → Bool
has_steam_id k u = str_eq u.steam_id k && not (str_eq k "")

-- One player at most has an openid, and one a SteamID; a token stands once.
abbrev pub IsUnique : String → Tables → Type 0
IsUnique k t =
    (tally (is_user k) t.users ≤ 1)
    × (tally (has_steam_id k) t.users ≤ 1)
    × (tally (is_token k) t.sessions ≤ 1)

-- Sessions and feedback are a player's.
abbrev pub IsOwned : Tables → Type 0
IsOwned t =
    All (λ s. has_user s.openid t ≡ true) t.sessions
    × All (λ f. has_user f.openid t ≡ true) t.feedback

abbrev pub IsWhole : Tables → Type 0
IsWhole t = ((k : String) → IsUnique k t) × IsOwned t

-- What keeps players keeps the owners of sessions and feedback.
module _ (users users' : List User)
    (keep : (k : String)
      → affects (is_user k) users ≡ true
      → affects (is_user k) users' ≡ true) where
  owned_sessions :
      (sessions : List Session)
      → All (λ s. affects (is_user s.openid) users ≡ true) sessions
      → All (λ s. affects (is_user s.openid) users' ≡ true) sessions
  owned_sessions [] h = tt
  owned_sessions (s ∷ sessions) (e, h) = (keep s.openid e, owned_sessions sessions h)

  owned_feedback :
      (feedback : List Feedback)
      → All (λ f. affects (is_user f.openid) users ≡ true) feedback
      → All (λ f. affects (is_user f.openid) users' ≡ true) feedback
  owned_feedback [] h = tt
  owned_feedback (f ∷ feedback) (e, h) = (keep f.openid e, owned_feedback feedback h)

-- An update of players that keeps their openids, with a bound on the SteamIDs after it.
pub set_users-IsWhole :
    (o : String) (f : User → User) (t : Tables)
    → ((k : String) (u : User) → is_user k (f u) ≡ is_user k u)
    → ((k : String) → tally (has_steam_id k) (update_where (is_user o) f t.users) ≤ 1)
    → IsWhole t
    → IsWhole (set_users (is_user o) f t)
set_users-IsWhole o f t same bound (unique, (sessions, feedback)) =
    let keep : (k : String)
        → affects (is_user k) t.users ≡ true
        → affects (is_user k) (update_where (is_user o) f t.users) ≡ true =
      λ k e. affects-update_where (is_user o) f (is_user k) (same k) t.users ∙ e in
    (
      λ k. (
        omega (arith, (unique k).0, tally-update_where (is_user o) f (is_user k) (same k) t.users),
        bound k,
        (unique k).2,
      ),
      (
        owned_sessions t.users (update_where (is_user o) f t.users) keep t.sessions sessions,
        owned_feedback t.users (update_where (is_user o) f t.users) keep t.feedback feedback,
      ),
    )

-- A SteamID that is free is one player's after it was set.
steam_bound :
    (o s k : String) (f : User → User)
    → ((u : User) → (f u).steam_id ≡ s)
    → (users : List User)
    → tally (has_steam_id k) (update_where (is_user o) f users) ≤ (
        if str_eq s k && not (str_eq k "")
        then tally (is_user o) users + tally (λ u. str_eq u.steam_id s && not (is_user o u)) users
        else tally (has_steam_id k) users)
steam_bound o s k f sets [] = ground arith
steam_bound o s k f sets (u ∷ users) = ground (
  arith,
  ap (λ x. str_eq x k) (sets u),
  eq_iff s k,
  eq_iff u.steam_id s,
  eq_iff u.steam_id k,
  steam_bound o s k f sets users,
)

free_bound :
    (o s : String) (f : User → User) (t : Tables) (k : String)
    → ((u : User) → (f u).steam_id ≡ s)
    → steam_id_taken o s t ≡ false
    → IsWhole t
    → tally (has_steam_id k) (update_where (is_user o) f t.users) ≤ 1
free_bound o s f t k sets free (unique, owned) = elim (Bool-cases (has_user o t)) [
  | inl e ↦
      let other : User → Bool = λ u. str_eq u.steam_id s && not (is_user o u) in
      elim (Bool-cases (affects other t.users)) [
        | inl found ↦ ground (
          arith,
          e,
          found,
          free,
          eq_iff s k,
          eq_iff s "",
          eq_iff k "",
          (unique k).1,
          steam_bound o s k f sets t.users,
        )
        | inr none_other ↦ ground (
          arith,
          (unique o).0,
          (unique k).1,
          steam_bound o s k f sets t.users,
          tally-none other t.users none_other,
        )
      ]
  | inr e ↦ rw (update_where-none (is_user o) f t.users e) (unique k).1
]

pub upsert_user-IsWhole :
    (o nickname avatar : String) (now : ℕ) (t : Tables)
    → IsWhole t
    → IsWhole (upsert_user o nickname avatar now t)
unfolding upsert_user
upsert_user-IsWhole o nickname avatar now t (unique, owned) = elim (Bool-cases (has_user o t)) [
  | inl e ↦ rw e (
      set_users-IsWhole o (λ u. record u { updated_at = now }) t (λ k u. refl)
        (λ k. omega (
          arith,
          (unique k).1,
          tally-update_where (is_user o) (λ u. record u { updated_at = now }) (has_steam_id k)
              (λ u. refl) t.users,
        ))
        (unique, owned))
  | inr e ↦
      let keep : (k : String)
          → affects (is_user k) t.users ≡ true
          → affects (is_user k) (new_user o nickname avatar now ∷ t.users) ≡ true =
        λ k there. ground (arith, there) in
      rw e (
        λ k. (
          tally-insert is_user o k t.users e (unique k).0,
          ground (arith, (unique k).1, eq_iff "" k, eq_iff k ""),
          (unique k).2,
        ),
        (
          owned_sessions t.users (new_user o nickname avatar now ∷ t.users) keep t.sessions owned.0,
          owned_feedback t.users (new_user o nickname avatar now ∷ t.users) keep t.feedback owned.1,
        ),
      )
]

pub create_session-IsWhole :
    (token o : String) (now : ℕ) (t : Tables)
    → IsWhole t
    → IsWhole (kept (create_session token o now t) t)
unfolding create_session
create_session-IsWhole token o now t (unique, owned) =
    elim (Bool-cases (affects (is_token token) t.sessions)) [
      | inl e ↦ rw e (unique, owned)
      | inr e ↦ elim (Bool-cases (has_user o t)) [
        | inl there ↦
            rw (e, there)
              (
                λ k. (
                  (unique k).0,
                  (unique k).1,
                  tally-insert is_token token k t.sessions e (unique k).2,
                ),
                ((there, owned.0), owned.1),
              )
        | inr gone ↦ rw (e, gone) (unique, owned)
      ]
    ]

pub submit_feedback-IsWhole :
    (o : String) (content : Text) (now : ℕ) (t : Tables)
    → IsWhole t
    → IsWhole (kept (submit_feedback o content now t) t)
unfolding submit_feedback
submit_feedback-IsWhole o content now t (unique, owned) = elim (Bool-cases (has_user o t)) [
  | inl there ↦ rw there (unique, (owned.0, (there, owned.1)))
  | inr gone ↦ rw gone (unique, owned)
]

-- The SteamIDs after an update that keeps them.
pub same_bound :
    (o : String) (f : User → User) (t : Tables) (k : String)
    → ((u : User) → has_steam_id k (f u) ≡ has_steam_id k u)
    → IsWhole t
    → tally (has_steam_id k) (update_where (is_user o) f t.users) ≤ 1
same_bound o f t k same (unique, owned) =
    omega (arith, (unique k).1, tally-update_where (is_user o) f (has_steam_id k) same t.users)

pub update_steam_id-IsWhole :
    (o s : String) (now : ℕ) (t : Tables) → IsWhole t → IsWhole (kept (update_steam_id o s now t) t)
unfolding update_steam_id
update_steam_id-IsWhole o s now t w = elim (Bool-cases (steam_id_taken o s t)) [
  | inl e ↦ rw e w
  | inr e ↦
      let f : User → User = λ u. record u { steam_id = s; updated_at = now } in
      rw e (set_users-IsWhole o f t (λ k u. refl) (λ k. free_bound o s f t k (λ u. refl) e w) w)
]

patched-IsWhole :
    (o : String) (p : Patch) (now : ℕ) (t : Tables)
    → patch_collides o p.steam_id t ≡ false
    → IsWhole t
    → IsWhole (set_users (is_user o) (patched p now) t)
patched-IsWhole o p now t free w = elim (Option-cases p.steam_id) [
  | inl e ↦
      set_users-IsWhole o (patched p now) t (λ k u. refl)
        (λ k. same_bound o (patched p now) t k (λ u. rw e refl) w) w
  | inr (s, e) ↦
      set_users-IsWhole o (patched p now) t (λ k u. refl)
        (λ k. free_bound o s (patched p now) t k (λ u. rw e refl) (rw e at free) w) w
]

pub either-IsWhole : (xs ys t : Tables) → (xs ≡ t) ⊎ (xs ≡ ys) → IsWhole t → IsWhole ys → IsWhole xs
either-IsWhole xs ys t (inl e) w v = subst IsWhole (sym e) w
either-IsWhole xs ys t (inr e) w v = subst IsWhole (sym e) v

pub update_wx_user-IsWhole :
    (ok : Bool) (now : ℕ) (o : String) (patch : Option Patch) (t : Tables)
    → IsWhole t
    → IsWhole (update_wx_user ok now o patch t).1
unfolding update_wx_user
update_wx_user-IsWhole ok now o none t w = w
update_wx_user-IsWhole ok now o (some p) t w = elim (Bool-cases (patch_collides o p.steam_id t)) [
  | inl e ↦ either-IsWhole (update_wx_user ok now o (some p) t).1 t t (ground (arith, e)) w w
  | inr e ↦
      either-IsWhole (update_wx_user ok now o (some p) t).1
        (set_users (is_user o) (patched p now) t) t (ground (arith, e)) w
        (patched-IsWhole o p now t e w)
]
