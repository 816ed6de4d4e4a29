-- ===== src/Server/Accounts/Undeletable.antt =====
-- internal/backend/backend.go, handleDeleteWxUser: players who have sent feedback.
use mr1v.Base.{
  ℕ, ◌≡◌, refl, ◌∙◌, Bool, true, Option, none, some, List, [], ◌∷◌, String, str_eq, eq_iff, ap,
  Bool-cases, inl, inr, ◌⊎◌, arith,
}
use mr1v.Js.Text.{Text}
use mr1v.Js.Dict.{str_eq_refl}
use mr1v.Server.Rooms.{Room}
use mr1v.Server.Rooms.Handlers.{ok_reply, fail}
use mr1v.Server.Rows.{affects-update_where}
use mr1v.Server.Accounts.{
  User, Tables, is_user, has_user, set_users, steam_id_taken, create_session, submit_feedback,
  upsert_user, update_steam_id, update_profile, update_nickname,
}
use mr1v.Server.Accounts.Handlers.{feedback_request}
use mr1v.Server.Accounts.Manage.{has_feedback, patched, without, update_wx_user, delete_wx_user}
use mr1v.Server.Accounts.Steps.{
  Statement, upserts, starts_session, sends_feedback, sets_steam_id, sets_profile, sets_nickname,
  updates, deletes, kept, run, run_all,
}
use mr1v.Server.Accounts.Lockout.{affects-select}

module _ (openid : String) where
  -- The player is there and has sent feedback.
  abbrev pub Heard : Tables → Type 0
  Heard t = (has_user openid t ≡ true) × (has_feedback openid t ≡ true)

  set_users-Heard :
      (test : User → Bool) (f : User → User) (t : Tables)
      → ((u : User) → is_user openid (f u) ≡ is_user openid u)
      → Heard t
      → Heard (set_users test f t)
  set_users-Heard test f t same (u, h) =
      (affects-update_where test f (is_user openid) same t.users ∙ u, h)

  either-Heard : (xs ys t : Tables) → (xs ≡ t) ⊎ (xs ≡ ys) → Heard t → Heard ys → Heard xs
  either-Heard xs ys t (inl e) w v = rw e w
  either-Heard xs ys t (inr e) w v = rw e v

  same-Heard : (xs t : Tables) → xs.users ≡ t.users → xs.feedback ≡ t.feedback → Heard t → Heard xs
  same-Heard xs t e f (u, h) = (rw e u, rw f h)

  delete_wx_user-refused :
      (ok : ℕ → Bool) (t : Tables) (rows : List Room)
      → Heard t
      → delete_wx_user ok openid t rows ≡ (fail 500, t, rows)
  unfolding delete_wx_user
  delete_wx_user-refused ok t rows (u, h) = rw (u, h) (ground arith)

  -- The reference of the feedback protects the player himself.
  delete_wx_user-Heard :
      (ok : ℕ → Bool) (o : String) (t : Tables) → Heard t → Heard (delete_wx_user ok o t []).1
  unfolding delete_wx_user
  delete_wx_user-Heard ok o t (u, h) = elim (Bool-cases (str_eq o openid)) [
    | inl same ↦ rw ((eq_iff o openid).0 same) (
        either-Heard (delete_wx_user ok openid t []).1 t t
          (inl (ap (λ d. d.1) (delete_wx_user-refused ok t [] (u, h)))) (u, h) (u, h))
    | inr other ↦
        either-Heard (delete_wx_user ok o t []).1 (without o t) t (ground arith) (u, h)
          (affects-select openid o t.users other ∙ u, h)
  ]

  run-Heard : (s : Statement) (t : Tables) → Heard t → Heard (run s t)
  unfolding run create_session submit_feedback upsert_user update_steam_id update_profile
      update_nickname update_wx_user
  run-Heard (upserts o nickname avatar now) t (u, h) = elim (Bool-cases (has_user o t)) [
    | inl e ↦ rw e (set_users-Heard _ _ t (λ u. refl) (u, h))
    | inr e ↦ rw e (ground (arith, u), h)
  ]
  run-Heard (starts_session token o now) t w =
      same-Heard (kept (create_session token o now t) t) t (ground arith) (ground arith) w
  run-Heard (sends_feedback o content now) t (u, h) = elim (Bool-cases (has_user o t)) [
    | inl e ↦ rw e (u, ground (arith, h))
    | inr e ↦ rw e (u, h)
  ]
  run-Heard (sets_steam_id o steam_id now) t w = elim (Bool-cases (steam_id_taken o steam_id t)) [
    | inl e ↦ rw e w
    | inr e ↦ rw e (set_users-Heard _ _ t (λ u. refl) w)
  ]
  run-Heard (sets_profile o avatar nickname now) t w = set_users-Heard _ _ t (λ u. refl) w
  run-Heard (sets_nickname o nickname now) t w = set_users-Heard _ _ t (λ u. refl) w
  run-Heard (updates ok o none now) t w = w
  run-Heard (updates ok o (some p) now) t w =
      either-Heard (update_wx_user ok now o (some p) t).1 (set_users (is_user o) (patched p now) t)
        t (ground arith) w (set_users-Heard (is_user o) (patched p now) t (λ u. refl) w)
  run-Heard (deletes ok o) t w = delete_wx_user-Heard ok o t w

  run_all-Heard : (later : List Statement) (t : Tables) → Heard t → Heard (run_all later t)
  unfolding run_all
  run_all-Heard [] t w = w
  run_all-Heard (s ∷ later) t w = run_all-Heard later (run s t) (run-Heard s t w)

  feedback_request-Heard :
      (ok : ℕ → Bool) (now : ℕ) (content : Option Text) (t : Tables)
      → (feedback_request ok now openid content t).0 ≡ ok_reply
      → Heard (feedback_request ok now openid content t).1
  unfolding feedback_request submit_feedback
  feedback_request-Heard ok now none t done = cc
  feedback_request-Heard ok now (some c) t done =
      let own : str_eq openid openid ≡ true = str_eq_refl openid in
      (ground (arith, done, own), ground (arith, done, own))

-- A player whose feedback was taken can never be deleted: whatever statements run afterwards, the
-- deletion of the player is answered with 500, and users, sessions, feedback and rooms stay as they
-- were.
pub feedback_request-delete_wx_user :
    (ok : ℕ → Bool) (now : ℕ) (openid : String) (content : Option Text) (t : Tables)
    (later : List Statement) (deleting : ℕ → Bool) (rows : List Room)
    → (feedback_request ok now openid content t).0 ≡ ok_reply
    → let after = run_all later (feedback_request ok now openid content t).1 in
      delete_wx_user deleting openid after rows ≡ (fail 500, after, rows)
feedback_request-delete_wx_user ok now openid content t later deleting rows done =
    delete_wx_user-refused openid deleting _ rows
      (run_all-Heard openid later _ (feedback_request-Heard openid ok now content t done))
