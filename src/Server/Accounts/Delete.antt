-- ===== src/Server/Accounts/Delete.antt =====
-- internal/backend/backend.go, handleDeleteWxUser: what the deletion of a player leaves behind.
use mr1v.Base.{
  ℕ, ◌≤◌, ◌≡◌, ◌≢◌, refl, sym, ap, ◌∙◌, Bool, true, false, not, none, some, some_inj, none≢some,
  List, [], ◌∷◌, String, str_eq, eq_iff, select, find_first, false≢true, Bool-cases, Option-cases,
  inl, inr, arith,
}
use mr1v.Js.Dict.{str_eq_refl}
use mr1v.Server.Rooms.{
  Room, ready, is_room, is_joiner, is_joinable, is_active_of, affects, get_room, has_active_room,
}
use mr1v.Server.Rooms.Handlers.{ok_reply, fail, answer, CreateRequest, create_request}
use mr1v.Server.Rooms.Fit.{rows_with, rows_with-update_where}
use mr1v.Server.Rooms.Lookup.{
  get_room-update_where, get_room-affects, get_room-is_room, get_room-vacancy,
}
use mr1v.Server.Rooms.Join.{Attempt, join_all, accepted, vacancy, join_all-vacancy}
use mr1v.Server.Rooms.Race.{all_succeed, IsProper, create_request-refused}
use mr1v.Server.Accounts.{Session, Tables, is_user, is_token, session_user, user_of}
use mr1v.Server.Accounts.Manage.{rooms_without, without, delete_wx_user}
use mr1v.Server.Accounts.Lockout.Auth.{whose}

-- Rooms and their ids under a selection.
get_room-select :
    (test : Room → Bool) (id : String) (rows : List Room) (r : Room)
    → get_room id rows ≡ some r
    → test r ≡ true
    → get_room id (select test rows) ≡ some r
unfolding get_room
get_room-select test id [] r e hit = cc
get_room-select test id (q ∷ rows) r e hit = elim (Bool-cases (is_room id q)) [
  | inl here ↦
      let same : some q ≡ some r = rw here at e in
      let kept : test q ≡ true = rw (some_inj.0 same) hit in rw (kept, here) same
  | inr else_where ↦
      let rest = get_room-select test id rows r (rw else_where at e) hit in
      elim (Bool-cases (test q)) [ inl t ↦ rw (t, else_where) rest | inr f ↦ rw f rest ]
]

rows_with-select :
    (test : Room → Bool) (id : String) (rows : List Room)
    → rows_with id (select test rows) ≤ rows_with id rows
rows_with-select test id [] = omega arith
rows_with-select test id (r ∷ rows) = ground (arith, rows_with-select test id rows)

-- A session that is left is another player's, and leads to that player only.
abbrev pub other_sessions : String → List Session → List Session
other_sessions openid = select (λ (s : Session). not (str_eq s.openid openid))

find_first-other_sessions :
    (openid token : String) (sessions : List Session) (s : Session)
    → find_first (is_token token) (other_sessions openid sessions) ≡ some s
    → str_eq s.openid openid ≡ false
find_first-other_sessions openid token [] s e = cc
find_first-other_sessions openid token (h ∷ sessions) s e =
    elim (Bool-cases (str_eq h.openid openid)) [
      | inl own ↦ find_first-other_sessions openid token sessions s (rw own at e)
      | inr foreign ↦ elim (Bool-cases (is_token token h)) [
        | inl hit ↦
            let same : some h ≡ some s = rw (foreign, hit) at e in
            rw (sym (some_inj.0 same)) foreign
        | inr miss ↦ find_first-other_sessions openid token sessions s (rw (foreign, miss) at e)
      ]
    ]

user_of-whose :
    (s : Session) (t : Tables) (openid : String)
    → whose (user_of (some s) t) ≡ some openid
    → s.openid ≡ openid
user_of-whose s t openid e = elim (Option-cases (find_first (is_user s.openid) t.users)) [
  | inl gone ↦ absurd (none≢some (rw gone at e))
  | inr (u, found) ↦ let same : some s.openid ≡ some openid = rw found at e in some_inj.0 same
]

session_user-without :
    (openid token : String) (t : Tables)
    → whose (session_user token (without openid t)) ≢ some openid
unfolding session_user
session_user-without openid token t e =
    elim (Option-cases (find_first (is_token token) (other_sessions openid t.sessions))) [
      | inl gone ↦ none≢some (rw gone at e)
      | inr (s, found) ↦ false≢true (
          sym (find_first-other_sessions openid token t.sessions s found)
          ∙ (eq_iff s.openid openid).1 (user_of-whose s (without openid t) openid (rw found at e)))
    ]

abbrev pub vacated : Room → Room
vacated r = record r { joiner_openid = none }

rooms_without-stranded :
    (openid id : String) (rows : List Room) (r : Room)
    → get_room id rows ≡ some r
    → r.joiner_openid ≡ some openid
    → str_eq r.creator_openid openid ≡ false
    → get_room id (rooms_without openid rows) ≡ some (vacated r)
rooms_without-stranded openid id rows r found joins foreign =
    let own : is_joiner openid r.joiner_openid ≡ true = rw joins (str_eq_refl openid) in
    let seen =
      get_room-select (λ r. not (str_eq r.creator_openid openid)) id rows r found
        (ap not foreign) in
    get_room-update_where (λ r. is_joiner openid r.joiner_openid) vacated id (λ r. refl)
      (select (λ r. not (str_eq r.creator_openid openid)) rows)
    ∙ rw (seen, own) refl

pub rows_with-rooms_without :
    (openid id : String) (rows : List Room)
    → rows_with id (rooms_without openid rows) ≤ rows_with id rows
rows_with-rooms_without openid id rows = omega (
  arith,
  rows_with-update_where (λ r. is_joiner openid r.joiner_openid) vacated id (λ r. refl)
      (select (λ r. not (str_eq r.creator_openid openid)) rows),
  rows_with-select (λ r. not (str_eq r.creator_openid openid)) id rows,
)

delete_wx_user-done :
    (ok : ℕ → Bool) (openid : String) (t : Tables) (rows : List Room)
    → (delete_wx_user ok openid t rows).0 ≡ ok_reply
    → delete_wx_user ok openid t rows ≡ (ok_reply, without openid t, rooms_without openid rows)
unfolding delete_wx_user
delete_wx_user-done ok openid t rows done = ground (arith, done)

-- No request to join is accepted where no room is open to join.
shut_out :
    (id : String) (attempts : List Attempt) (rows : List Room)
    → affects (is_joinable id) rows ≡ false
    → accepted (join_all id attempts rows).0 ≡ 0
shut_out id attempts rows shut =
    let none_left : vacancy id rows ≡ 0 = rw shut refl in
    omega (arith, none_left, join_all-vacancy id attempts rows)

-- Deleting a player ends his sessions: no token leads to him any more. A room that was ready with him
-- as its joiner stays ready without one: no request to join it is ever accepted, and its creator can
-- create no other room.
pub delete_wx_user-join_all :
    (ok : ℕ → Bool) (openid : String) (t : Tables) (rows : List Room) (token id id' : String)
    (r : Room) (attempts : List Attempt) (q : CreateRequest) (now : ℕ)
    → (delete_wx_user ok openid t rows).0 ≡ ok_reply
    → get_room id rows ≡ some r
    → r.status ≡ ready
    → r.joiner_openid ≡ some openid
    → str_eq r.creator_openid openid ≡ false
    → rows_with id rows ≤ 1
    → IsProper q
    → let end = delete_wx_user ok openid t rows in
      (whose (session_user token end.1) ≢ some openid)
      × (get_room id end.2 ≡ some (vacated r))
      × (accepted (join_all id attempts end.2).0 ≡ 0)
      × (create_request all_succeed now id' r.creator_openid end.2 (some q) end.2
          ≡ answer (fail 409) end.2 [])
unfolding has_active_room
delete_wx_user-join_all ok openid t rows token id id' r attempts q now done found is_ready joins
      foreign one proper =
    let after = rooms_without openid rows in
    let seen = rooms_without-stranded openid id rows r found joins foreign in
    let room : is_room id r ≡ true = get_room-is_room id rows r found in
    let own : str_eq r.creator_openid r.creator_openid ≡ true = str_eq_refl r.creator_openid in
    let fewer : rows_with id after ≤ 1 =
      omega (arith, one, rows_with-rooms_without openid id rows) in
    let shut = get_room-vacancy id after (vacated r) seen fewer (ground (arith, is_ready)) in
    let active =
      get_room-affects (is_active_of r.creator_openid) id after (vacated r) seen
        (ground (arith, room, own, is_ready)) in
    rw (delete_wx_user-done ok openid t rows done) (
      session_user-without openid token t,
      seen,
      omega (arith, shut_out id attempts after shut),
      create_request-refused now id' r.creator_openid after q after proper active,
    )
