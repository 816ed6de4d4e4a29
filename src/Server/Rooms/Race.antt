-- ===== src/Server/Rooms/Race.antt =====
-- internal/wxserver/handlers/rooms.go: `CreateRoom` tests for an active room in one statement and
-- inserts in another.
use mr1v.Base.{
  ℕ, ◌+◌, ◌≡◌, ◌≢◌, refl, Bool, true, false, ◌||◌, some, List, [], ◌∷◌, ◌++◌, String, str_eq,
  eq_iff, if◌then◌else◌, arith,
}
use mr1v.Js.Text.{is_empty}
use mr1v.Server.Rooms.{Room, new_room, affects, is_active_of, has_active_room, create_room}
use mr1v.Server.Rooms.Handlers.{
  ok_reply, fail, answer, CreateRequest, is_category, trim_space, create_request,
}
use mr1v.Server.Rooms.Join.{accepts}

abbrev pub all_succeed : ℕ → Bool
all_succeed n = true

-- A title that is not blank and one of the three categories.
abbrev pub IsProper : CreateRequest → Type 0
IsProper q = (is_empty (trim_space q.title) ≡ false) × (is_category q.category ≡ true)

abbrev pub active_rooms : String → List Room → ℕ
active_rooms openid [] = 0
active_rooms openid (r ∷ rows) = (if is_active_of openid r then 1 else 0) + active_rooms openid rows

active_rooms-append :
    (openid : String) (xs ys : List Room)
    → active_rooms openid (xs ++ ys) ≡ active_rooms openid xs + active_rooms openid ys
active_rooms-append openid [] ys = omega arith
active_rooms-append openid (r ∷ xs) ys = omega (arith, active_rooms-append openid xs ys)

active_rooms-none :
    (openid : String) (rows : List Room)
    → affects (is_active_of openid) rows ≡ false
    → active_rooms openid rows ≡ 0
active_rooms-none openid [] h = refl
active_rooms-none openid (r ∷ rows) h = ground (arith, active_rooms-none openid rows)

affects-append :
    (test : Room → Bool) (xs ys : List Room)
    → affects test (xs ++ ys) ≡ (affects test xs || affects test ys)
affects-append test [] ys = refl
affects-append test (r ∷ xs) ys = ground (arith, affects-append test xs ys)

abbrev pub has_id : String → Room → Bool
has_id id r = str_eq r.id id

abbrev pub room_of : String → String → ℕ → CreateRequest → Room
room_of id openid now q =
    new_room id q.title openid q.password q.category (trim_space q.map_name) q.bot_test_mode now

-- A proper request whose query saw no active room, with an id that is new, is accepted.
create_request-accepted :
    (now : ℕ) (id openid : String) (seen : List Room) (q : CreateRequest) (rows : List Room)
    → IsProper q
    → has_active_room openid seen ≡ false
    → affects (has_id id) rows ≡ false
    → create_request all_succeed now id openid seen (some q) rows
      ≡ answer ok_reply (rows ++ (room_of id openid now q ∷ [])) []
unfolding create_request create_room
create_request-accepted now id openid seen q rows (t, c) free fresh = rw (t, c, free, fresh) refl

pub create_request-refused :
    (now : ℕ) (id openid : String) (seen : List Room) (q : CreateRequest) (rows : List Room)
    → IsProper q
    → has_active_room openid seen ≡ true
    → create_request all_succeed now id openid seen (some q) rows ≡ answer (fail 409) rows []
unfolding create_request
create_request-refused now id openid seen q rows (t, c) busy = rw (t, c, busy) refl

-- A user with no active room sends two proper requests to create one. If the second begins when the
-- first is done, it is refused; if both tests ran before either insert, both are accepted, and the
-- user has two active rooms.
pub create_request-create_request :
    (openid id id' : String) (q q' : CreateRequest) (now : ℕ) (rows : List Room)
    → IsProper q
    → IsProper q'
    → has_active_room openid rows ≡ false
    → id ≢ id'
    → affects (has_id id) rows ≡ false
    → affects (has_id id') rows ≡ false
    → let first = create_request all_succeed now id openid rows (some q) rows in
      let after = create_request all_succeed now id' openid first.rooms (some q') first.rooms in
      let between = create_request all_succeed now id' openid rows (some q') first.rooms in
      (accepts first.reply ≡ 1)
      × (after ≡ answer (fail 409) first.rooms [])
      × (accepts between.reply ≡ 1)
      × (active_rooms openid between.rooms ≡ 2)
unfolding has_active_room
create_request-create_request openid id id' q q' now rows p p' free apart fresh fresh' =
    let r = room_of id openid now q in
    let r' = room_of id' openid now q' in
    let own : str_eq openid openid ≡ true = (eq_iff openid openid).1 refl in
    let first = create_request-accepted now id openid rows q rows p free fresh in
    let busy : has_active_room openid (rows ++ (r ∷ [])) ≡ true =
      ground (arith, own, affects-append (is_active_of openid) rows (r ∷ [])) in
    let new : affects (has_id id') (rows ++ (r ∷ [])) ≡ false =
      ground (arith, fresh', eq_iff id id', affects-append (has_id id') rows (r ∷ [])) in
    let between = create_request-accepted now id' openid rows q' (rows ++ (r ∷ [])) p' free new in
    rw first (
      refl,
      create_request-refused now id' openid (rows ++ (r ∷ [])) q' (rows ++ (r ∷ [])) p' busy,
      rw between (refl),
      rw between (
          ground (
            arith,
            own,
            active_rooms-append openid (rows ++ (r ∷ [])) (r' ∷ []),
            active_rooms-append openid rows (r ∷ []),
            active_rooms-none openid rows free,
          )),
    )
