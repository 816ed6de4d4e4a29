-- ===== src/Server/Rooms/Entry.antt =====
-- internal/wxserver/handlers/rooms.go: who gets a connection to a room, after JoinRoom and after
-- LeaveRoom.
use mr1v.Base.{
  ℕ, ◌≤◌, ◌≡◌, refl, sym, ◌∙◌, Bool, true, false, ◌&&◌, some, List, String, str_eq, true≢false,
  Bool-cases, inl, inr, arith,
}
use mr1v.Js.Dict.{str_eq_refl}
use mr1v.Server.Room.{joiner}
use mr1v.Server.Rooms.{
  Room, is_room, is_joiner, is_joinable, joined, left, update_where, affects, get_room, join_room,
  leave_room,
}
use mr1v.Server.Rooms.Handlers.{ok_reply, join_request, leave_request}
use mr1v.Server.Rooms.Fit.{rows_with}
use mr1v.Server.Rooms.Lookup.{updated, get_room-update_where, get_room-is_room, get_room-vacancy}
use mr1v.Server.Rooms.Race.{all_succeed}
use mr1v.Server.Accounts.{Tables, get_openid_by_token}
use mr1v.Server.Accounts.Handlers.{admits, turned_away, room_ws}

module _ (id openid given password : String) (now : ℕ) (rows : List Room) (r : Room) where
  join_request-foreign :
      (ok : ℕ → Bool)
      → (join_request ok now id openid given (some r) password rows).reply ≡ ok_reply
      → str_eq r.creator_openid openid ≡ false
  unfolding join_request
  join_request-foreign ok done = ground (arith, done)

  joined_there :
      get_room id rows ≡ some r
      → is_joinable id r ≡ true
      → updated (is_joinable id) (joined openid now) (get_room id rows) ≡ some (joined openid now r)
  joined_there found e = rw (found, e) refl

  join_request-rooms :
      (ok : ℕ → Bool)
      → (join_request ok now id openid given (some r) password rows).reply ≡ ok_reply
      → ((join_request ok now id openid given (some r) password rows).rooms
          ≡ update_where (is_joinable id) (joined openid now) rows)
        × (affects (is_joinable id) rows ≡ true)
  unfolding join_request join_room
  join_request-rooms ok done = (ground (arith, done), ground (arith, done))

  -- An accepted request has put the player into the room that was found.
  join_request-get_room :
      (ok : ℕ → Bool)
      → get_room id rows ≡ some r
      → rows_with id rows ≤ 1
      → (join_request ok now id openid given (some r) password rows).reply ≡ ok_reply
      → get_room id (join_request ok now id openid given (some r) password rows).rooms
        ≡ some (joined openid now r)
  join_request-get_room ok found one done =
      let (end, open_room) = join_request-rooms ok done in
      elim (Bool-cases (is_joinable id r)) [
        | inl e ↦ rw end (
            get_room-update_where (is_joinable id) (joined openid now) id (λ q. refl) rows
            ∙ joined_there found e)
        | inr e ↦ absurd (true≢false (sym open_room ∙ get_room-vacancy id rows r found one e))
      ]

module _ (id openid token : String) (t : Tables) (after : List Room) (r : Room) where
  joiner-room_ws :
      get_room id after ≡ some r
      → r.joiner_openid ≡ some openid
      → str_eq r.creator_openid openid ≡ false
      → get_openid_by_token token t ≡ some openid
      → room_ws token (get_room id after) t ≡ admits joiner openid
  unfolding room_ws
  joiner-room_ws seen joins foreign good = rw (good, seen, foreign, joins, str_eq_refl openid) refl

  leave_request-room_ws :
      (later : ℕ)
      → get_room id after ≡ some r
      → r.joiner_openid ≡ some openid
      → str_eq r.creator_openid openid ≡ false
      → get_openid_by_token token t ≡ some openid
      → room_ws token
          (get_room id (leave_request all_succeed later id openid (get_room id after) after).rooms)
          t
        ≡ turned_away 403
  unfolding room_ws leave_request leave_room
  leave_request-room_ws later seen joins foreign good =
      let hit : is_joiner openid r.joiner_openid ≡ true = rw joins (str_eq_refl openid) in
      let gone : get_room id (leave_room id openid later after) ≡ some (left later r) =
        get_room-update_where (λ q. is_room id q && is_joiner openid q.joiner_openid) (left later)
          id (λ q. refl) after
        ∙ rw (seen, get_room-is_room id after r seen, hit) refl in
      rw (good, seen, foreign, gone, foreign) refl

-- A player whose request to join was accepted, and whose token is good, is admitted to the room as its
-- joiner; after he leaves it, he is turned away again.
pub join_request-room_ws :
    (ok : ℕ → Bool) (id openid given password token : String) (now later : ℕ) (rows : List Room)
    (r : Room) (t : Tables)
    → get_room id rows ≡ some r
    → rows_with id rows ≤ 1
    → (join_request ok now id openid given (get_room id rows) password rows).reply ≡ ok_reply
    → get_openid_by_token token t ≡ some openid
    → let after = (join_request ok now id openid given (get_room id rows) password rows).rooms in
      let end = (leave_request all_succeed later id openid (get_room id after) after).rooms in
      (room_ws token (get_room id after) t ≡ admits joiner openid)
      × (room_ws token (get_room id end) t ≡ turned_away 403)
join_request-room_ws ok id openid given password token now later rows r t found one done good =
    let accepted = rw found at done in
    let foreign = join_request-foreign id openid given password now rows r ok accepted in
    let after = (join_request ok now id openid given (some r) password rows).rooms in
    let seen = join_request-get_room id openid given password now rows r ok found one accepted in
    rw found (
      joiner-room_ws id openid token t after (joined openid now r) seen refl foreign good,
      leave_request-room_ws id openid token t after (joined openid now r) later seen refl foreign
          good,
    )
