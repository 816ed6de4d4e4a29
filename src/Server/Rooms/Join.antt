-- ===== src/Server/Rooms/Join.antt =====
-- internal/wxserver/handlers/rooms.go: requests to join a room at the same time.
use mr1v.Base.{
  ℕ, ◌+◌, ◌≡◌, refl, Bool, false, Option, none, some, List, [], ◌∷◌, String, Bool-cases, inl, inr,
  if◌then◌else◌, arith,
}
use mr1v.Server.Rooms.{Room, is_joinable, joined, update_where, affects, join_room}
use mr1v.Server.Rooms.Handlers.{Reply, ok_reply, fail, Answer, join_request, join_seen, join_result}

-- A request to join: what its queries saw, and whether its statements succeed.
pub record Attempt : Type 0 where
  pub ok : ℕ → Bool
  pub now : ℕ
  pub openid : String
  pub given : String
  pub room : Option Room
  pub password : String

abbrev pub attempt : String → Attempt → List Room → Answer
attempt id a rows = join_request a.ok a.now id a.openid a.given a.room a.password rows

-- The replies to requests whose statements run in this order, and the table in the end.
unfoldable pub join_all : String → List Attempt → List Room → List Reply × List Room
unfolding join_request
join_all id [] rows = ([], rows)
join_all id (a ∷ rest) rows =
    let o = attempt id a rows in
    let later = join_all id rest o.rooms in (o.reply ∷ later.0, later.1)

abbrev pub accepts : Reply → ℕ
accepts ok_reply = 1
accepts (fail code) = 0

abbrev pub accepted : List Reply → ℕ
accepted [] = 0
accepted (r ∷ rs) = accepts r + accepted rs

abbrev pub vacancy : String → List Room → ℕ
vacancy id rows = if affects (is_joinable id) rows then 1 else 0

joined-taken :
    (id openid : String) (now : ℕ) (rows : List Room)
    → affects (is_joinable id) (update_where (is_joinable id) (joined openid now) rows) ≡ false
joined-taken id openid now [] = refl
joined-taken id openid now (r ∷ rows) = elim (Bool-cases (is_joinable id r)) [
  | inl e ↦ rw e (ground (arith, joined-taken id openid now rows))
  | inr e ↦ rw (e, e) (joined-taken id openid now rows)
]

join_result-vacancy :
    (ok : ℕ → Bool) (now : ℕ) (id openid : String) (rows : List Room)
    → let o = join_result ok now (join_room id openid now rows) rows in
      accepts o.reply + vacancy id o.rooms ≡ vacancy id rows
unfolding join_room
join_result-vacancy ok now id openid rows = elim (Bool-cases (affects (is_joinable id) rows)) [
  | inl e ↦ rw (e, joined-taken id openid now rows) (omega arith)
  | inr e ↦ rw (e, e) (omega arith)
]

join_seen-vacancy :
    (ok : ℕ → Bool) (now : ℕ) (id openid given password : String) (room : Option Room)
    (rows : List Room)
    → let o = join_seen ok now id openid given password room rows in
      accepts o.reply + vacancy id o.rooms ≡ vacancy id rows
join_seen-vacancy ok now id openid given password none rows = omega arith
join_seen-vacancy ok now id openid given password (some r) rows =
    ground (arith, join_result-vacancy ok now id openid rows)

attempt-vacancy :
    (id : String) (a : Attempt) (rows : List Room)
    → let o = attempt id a rows in accepts o.reply + vacancy id o.rooms ≡ vacancy id rows
unfolding join_request
attempt-vacancy id a rows = join_seen-vacancy a.ok a.now id a.openid a.given a.password a.room rows

-- Of any requests to join a room, whatever their queries saw and in whatever order their statements
-- run, at most one is accepted: one if the room was open to join and then is not, and none if it
-- was not open or is still open.
pub join_all-vacancy :
    (id : String) (attempts : List Attempt) (rows : List Room)
    → accepted (join_all id attempts rows).0 + vacancy id (join_all id attempts rows).1
      ≡ vacancy id rows
unfolding join_all
join_all-vacancy id [] rows = omega arith
join_all-vacancy id (a ∷ rest) rows =
    omega (arith, attempt-vacancy id a rows, join_all-vacancy id rest (attempt id a rows).rooms)
