-- ===== src/Server/Accounts/Integrity/Reached.antt =====
-- internal/wxserver/store/store.go and internal/backend/backend.go: every statement keeps the tables of
-- players whole.
use mr1v.Base.{
  ℕ, ◌≡◌, refl, ◌∙◌, Bool, true, false, not, List, [], ◌∷◌, String, str_eq, eq_iff, All, select,
  Bool-cases, inl, inr, arith,
}
use mr1v.Server.Rooms.{affects}
use mr1v.Server.Rows.{tally-select}
use mr1v.Server.Accounts.{
  User, Session, Feedback, Tables, is_user, is_token, update_profile, update_nickname,
}
use mr1v.Server.Accounts.Manage.{without, has_feedback, delete_wx_user}
use mr1v.Server.Accounts.Steps.{
  Statement, upserts, starts_session, sends_feedback, sets_steam_id, sets_profile, sets_nickname,
  updates, deletes, run, run_all,
}
use mr1v.Server.Accounts.Lockout.{affects-select}
use mr1v.Server.Accounts.Integrity.{
  has_steam_id, IsUnique, IsOwned, IsWhole, upsert_user-IsWhole, create_session-IsWhole,
  submit_feedback-IsWhole, update_steam_id-IsWhole, update_wx_user-IsWhole, either-IsWhole,
  set_users-IsWhole, same_bound,
}

abbrev remaining : String → List User → List User
remaining o users = select (λ u. not (is_user o u)) users

-- The owner of what is left is another player, and stays.
owner_stays :
    (o k : String) (users : List User)
    → str_eq k o ≡ false
    → affects (is_user k) users ≡ true
    → affects (is_user k) (remaining o users) ≡ true
owner_stays o k users other there =
    affects-select k o users (ground (arith, other, eq_iff k o, eq_iff o k)) ∙ there

left_sessions :
    (o : String) (users : List User) (sessions : List Session)
    → All (λ s. affects (is_user s.openid) users ≡ true) sessions
    → All
        (λ s. affects (is_user s.openid) (remaining o users) ≡ true)
        (select (λ s. not (str_eq s.openid o)) sessions)
left_sessions o users [] h = tt
left_sessions o users (s ∷ sessions) (e, h) = elim (Bool-cases (str_eq s.openid o)) [
  | inl own ↦ rw own (left_sessions o users sessions h)
  | inr other ↦ rw other (owner_stays o s.openid users other e, left_sessions o users sessions h)
]

left_feedback :
    (o : String) (users : List User) (feedback : List Feedback)
    → affects (λ f. str_eq f.openid o) feedback ≡ false
    → All (λ f. affects (is_user f.openid) users ≡ true) feedback
    → All (λ f. affects (is_user f.openid) (remaining o users) ≡ true) feedback
left_feedback o users [] silent h = tt
left_feedback o users (f ∷ feedback) silent (e, h) = (
  owner_stays o f.openid users (ground (arith, silent)) e,
  left_feedback o users feedback (ground (arith, silent)) h,
)

without-IsWhole :
    (o : String) (t : Tables) → has_feedback o t ≡ false → IsWhole t → IsWhole (without o t)
without-IsWhole o t silent (unique, (sessions, feedback)) = (
  λ k. (
    omega (arith, (unique k).0, tally-select (is_user k) (λ u. not (is_user o u)) t.users),
    omega (arith, (unique k).1, tally-select (has_steam_id k) (λ u. not (is_user o u)) t.users),
    omega
        (arith, (unique k).2, tally-select (is_token k) (λ s. not (str_eq s.openid o)) t.sessions),
  ),
  (left_sessions o t.users t.sessions sessions, left_feedback o t.users t.feedback silent feedback),
)

delete_wx_user-IsWhole :
    (ok : ℕ → Bool) (o : String) (t : Tables) → IsWhole t → IsWhole (delete_wx_user ok o t []).1
unfolding delete_wx_user
delete_wx_user-IsWhole ok o t w = elim (Bool-cases (has_feedback o t)) [
  | inl e ↦ either-IsWhole (delete_wx_user ok o t []).1 t t (ground (arith, e)) w w
  | inr e ↦
      either-IsWhole (delete_wx_user ok o t []).1 (without o t) t (ground (arith, e)) w
        (without-IsWhole o t e w)
]

run-IsWhole : (s : Statement) (t : Tables) → IsWhole t → IsWhole (run s t)
unfolding run update_profile update_nickname
run-IsWhole (upserts o nickname avatar now) t w = upsert_user-IsWhole o nickname avatar now t w
run-IsWhole (starts_session token o now) t w = create_session-IsWhole token o now t w
run-IsWhole (sends_feedback o content now) t w = submit_feedback-IsWhole o content now t w
run-IsWhole (sets_steam_id o steam_id now) t w = update_steam_id-IsWhole o steam_id now t w
run-IsWhole (sets_profile o avatar nickname now) t w =
    let f : User → User =
      λ u. record u { avatar_url = avatar; nickname = nickname; updated_at = now } in
    set_users-IsWhole o f t (λ k u. refl) (λ k. same_bound o f t k (λ u. refl) w) w
run-IsWhole (sets_nickname o nickname now) t w =
    let f : User → User = λ u. record u { nickname = nickname; updated_at = now } in
    set_users-IsWhole o f t (λ k u. refl) (λ k. same_bound o f t k (λ u. refl) w) w
run-IsWhole (updates ok o patch now) t w = update_wx_user-IsWhole ok now o patch t w
run-IsWhole (deletes ok o) t w = delete_wx_user-IsWhole ok o t w

run_all-IsWhole :
    (statements : List Statement) (t : Tables) → IsWhole t → IsWhole (run_all statements t)
unfolding run_all
run_all-IsWhole [] t w = w
run_all-IsWhole (s ∷ rest) t w = run_all-IsWhole rest (run s t) (run-IsWhole s t w)

abbrev pub no_tables : Tables
no_tables = record { users = []; sessions = []; feedback = [] }

-- Whatever statements run, in whatever order and with whatever failures: no two players have the same
-- openid or the same SteamID that is not empty, no token stands twice, and every session and every
-- feedback is that of a player who is there.
pub run_all-IsOwned :
    (statements : List Statement) (k : String)
    → let t = run_all statements no_tables in IsUnique k t × IsOwned t
run_all-IsOwned statements k =
    let start : IsWhole no_tables = (λ k. (omega arith, omega arith, omega arith), (tt, tt)) in
    let (unique, owned) = run_all-IsWhole statements no_tables start in (unique k, owned)
