-- ===== src/Server/Rooms/Leave.antt =====
-- internal/wxserver/handlers/rooms.go: a joiner who leaves a room by DELETE /rooms/:id.
use mr1v.Base.{ℕ, ◌≡◌, refl, true, false, ◌&&◌, some, List, [], String, str_eq, eq_iff, arith, ◌∙◌}
use mr1v.Server.Rooms.{
  Room, is_room, is_joiner, is_joinable, is_active_of, left, affects, get_room, leave_room,
  has_active_room,
}
use mr1v.Server.Rooms.Handlers.{fail, answer, CreateRequest, create_request, leave_request}
use mr1v.Server.Rooms.Lookup.{get_room-update_where, get_room-affects, get_room-is_room}
use mr1v.Server.Rooms.Race.{all_succeed, IsProper, create_request-refused}

-- The room that the joiner of `r` leaves waits with no joiner, whatever its status was, a completed
-- or a matched one included: another player can join it, and its creator can create no other room.
pub leave_request-reopens :
    (id joiner id' : String) (r : Room) (q : CreateRequest) (now : ℕ) (rows : List Room)
    → get_room id rows ≡ some r
    → r.joiner_openid ≡ some joiner
    → str_eq r.creator_openid joiner ≡ false
    → IsProper q
    → let after = (leave_request all_succeed now id joiner (get_room id rows) rows).rooms in
      (get_room id after ≡ some (left now r))
      × (affects (is_joinable id) after ≡ true)
      × (create_request all_succeed now id' r.creator_openid after (some q) after
          ≡ answer (fail 409) after [])
unfolding leave_request leave_room has_active_room
leave_request-reopens id joiner id' r q now rows found joins foreign proper =
    let room = get_room-is_room id rows r found in
    let mine : str_eq joiner joiner ≡ true = (eq_iff joiner joiner).1 refl in
    let own : str_eq r.creator_openid r.creator_openid ≡ true =
      (eq_iff r.creator_openid r.creator_openid).1 refl in
    let hit : is_joiner joiner r.joiner_openid ≡ true = rw joins mine in
    let seen : get_room id (leave_room id joiner now rows) ≡ some (left now r) =
      get_room-update_where (λ r. is_room id r && is_joiner joiner r.joiner_openid) (left now) id
        (λ r. refl) rows
      ∙ rw (found, room, hit) refl in
    let active =
      get_room-affects (is_active_of r.creator_openid) id (leave_room id joiner now rows)
        (left now r) seen (ground (arith, room, own)) in
    rw (found, foreign)
      (
        seen,
        get_room-affects (is_joinable id) id (leave_room id joiner now rows) (left now r) seen
            (ground (arith, room)),
        create_request-refused now id' r.creator_openid (leave_room id joiner now rows) q
            (leave_room id joiner now rows) proper active,
      )
