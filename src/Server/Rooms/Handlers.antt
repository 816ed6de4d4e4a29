-- ===== src/Server/Rooms/Handlers.antt =====
-- internal/wxserver/handlers/rooms.go and internal.go: the requests on rooms. A handler's statements
-- run one by one and others may run between them, so each statement's table is an argument of its
-- own: `seen` for a query, `rows` for what the statement changes. `ok` says whether it succeeds.
use mr1v.Base.{
  ℕ, Bool, true, false, not, ◌&&◌, ◌||◌, Option, none, some, List, [], ◌∷◌, String, str_eq, leb,
  ◌==◌, if◌then◌else◌,
}
use mr1v.Js.Text.{Text, is_empty}
use mr1v.Server.Room.{Task, close_by_creator, notify_match_ended, notify_score_update}
use mr1v.Server.Rooms.{
  Room, new_room, has_active_room, create_room, join_room, leave_room, delete_room,
  update_room_score, complete_room,
}

-- `resp.OK` and `resp.Fail` with its code.
pub data Reply : Type 0 where
  ok_reply : Reply
  fail : ℕ → Reply

-- The reply, the table, and what the hub of the room is asked, if there is one.
pub record Answer : Type 0 where
  pub reply : Reply
  pub rooms : List Room
  pub hub : List Task

abbrev pub answer : Reply → List Room → List Task → Answer
answer r rows ts = record { reply = r; rooms = rows; hub = ts }

-- `strings.TrimSpace` on code points.
unfoldable pub is_space : ℕ → Bool
is_space c =
    (leb 9 c && leb c 13)
    || c == 32
    || c == 0x85
    || c == 0xa0
    || c == 0x1680
    || (leb 0x2000 c && leb c 0x200a)
    || c == 0x2028
    || c == 0x2029
    || c == 0x202f
    || c == 0x205f
    || c == 0x3000

unfoldable pub trim_left : Text → Text
unfolding is_space
trim_left [] = []
trim_left (c ∷ s) = if is_space c then trim_left s else c ∷ s

-- A character goes if it is a space and nothing is left behind it.
abbrev pub keep_right : ℕ → Text → Text
keep_right c [] = if is_space c then [] else c ∷ []
keep_right c (d ∷ s) = c ∷ d ∷ s

unfoldable pub trim_right : Text → Text
unfolding is_space
trim_right [] = []
trim_right (c ∷ s) = keep_right c (trim_right s)

unfoldable pub trim_space : Text → Text
unfolding trim_left trim_right
trim_space s = trim_right (trim_left s)

pub record CreateRequest : Type 0 where
  pub title : Text
  pub password : String
  pub category : String
  pub map_name : Text
  pub bot_test_mode : Bool

abbrev pub is_category : String → Bool
is_category s = str_eq s "pistol" || str_eq s "rifle" || str_eq s "sniper"

abbrev pub inserted : Option (List Room) → List Room → Answer
inserted none rows = answer (fail 500) rows []
inserted (some rows') rows = answer ok_reply rows' []

module _ (ok : ℕ → Bool) (now : ℕ) where
  -- `id` is the new uuid; `seen` is the table of `HasActiveRoom`.
  unfoldable pub create_request :
      (id openid : String) (seen : List Room) → Option CreateRequest → List Room → Answer
  unfolding trim_space has_active_room create_room
  create_request id openid seen none rows = answer (fail 400) rows []
  create_request id openid seen (some q) rows =
      let r =
        new_room id q.title openid q.password q.category (trim_space q.map_name) q.bot_test_mode
          now in
      if is_empty (trim_space q.title)
      then answer (fail 400) rows []
      else if not (is_category q.category)
      then answer (fail 400) rows []
      else if not (ok 0)
      then answer (fail 500) rows []
      else if has_active_room openid seen
      then answer (fail 409) rows []
      else if ok 1
      then inserted (create_room r rows) rows
      else answer (fail 500) rows []

  abbrev pub join_result : Option (List Room) → List Room → Answer
  join_result none rows = answer (fail 409) rows []
  join_result (some rows') rows = answer ok_reply rows' []

  -- `given` is the password of the request, empty when it does not parse.
  abbrev pub join_found : (id openid given password : String) → Room → List Room → Answer
  join_found id openid given password r rows =
      if str_eq r.creator_openid openid
      then answer (fail 403) rows []
      else if not (ok 1)
      then answer (fail 404) rows []
      else if not (str_eq password "") && not (str_eq given password)
      then answer (fail 403) rows []
      else if ok 2
      then join_result (join_room id openid now rows) rows
      else answer (fail 500) rows []

  abbrev pub join_seen : (id openid given password : String) → Option Room → List Room → Answer
  join_seen id openid given password none rows = answer (fail 404) rows []
  join_seen id openid given password (some r) rows =
      if ok 0 then join_found id openid given password r rows else answer (fail 404) rows []

  -- `room` is what `GetRoom` found, `password` what `GetRoomPassword` found after it.
  unfoldable pub join_request :
      (id openid given : String) (room : Option Room) (password : String) → List Room → Answer
  unfolding join_room
  join_request id openid given room password rows = join_seen id openid given password room rows

  abbrev pub leave_found : (id openid : String) → Room → List Room → Answer
  leave_found id openid r rows =
      if not (ok 1)
      then answer (fail 500) rows []
      else if str_eq r.creator_openid openid
      then answer ok_reply (delete_room id "closed" now rows) (close_by_creator ∷ [])
      else answer ok_reply (leave_room id openid now rows) []

  abbrev pub leave_seen : (id openid : String) → Option Room → List Room → Answer
  leave_seen id openid none rows =
      if ok 0 then answer ok_reply rows [] else answer (fail 500) rows []
  leave_seen id openid (some r) rows =
      if ok 0 then leave_found id openid r rows else answer (fail 500) rows []

  unfoldable pub leave_request : (id openid : String) (room : Option Room) → List Room → Answer
  unfolding leave_room delete_room
  leave_request id openid room rows = leave_seen id openid room rows

  abbrev pub final_status : String → String
  final_status s = if str_eq s "" then "terminated" else s

  abbrev pub match_ended_in : (state : String) → Option String → List Room → Answer
  match_ended_in s none rows = answer ok_reply rows []
  match_ended_in s (some id) rows =
      if not (ok 1)
      then answer (fail 500) rows []
      else answer ok_reply
          (if str_eq s "finished"
            then complete_room id now rows
            else delete_room id (final_status s) now rows)
          (notify_match_ended "比赛已结束，服务器已销毁" ∷ [])

  -- `found` is the room of `GetRoomIDByMatchID`; a request with no match id is refused.
  unfoldable pub match_ended_request :
      (match_id state : String) (found : Option String) → List Room → Answer
  unfolding complete_room delete_room
  match_ended_request match_id state found rows =
      if str_eq match_id ""
      then answer (fail 400) rows []
      else if ok 0
      then match_ended_in state found rows
      else answer (fail 500) rows []

  abbrev pub scored : ℕ → ℕ → Bool → Option String → List Task
  scored c j true (some id) = notify_score_update c j ∷ []
  scored c j true none = []
  scored c j false found = []

  unfoldable pub round_update_request :
      (match_id : String) (c j : ℕ) (found : Option String) → List Room → Answer
  unfolding update_room_score
  round_update_request match_id c j found rows =
      if str_eq match_id ""
      then answer (fail 400) rows []
      else if ok 0
      then answer ok_reply (update_room_score match_id c j now rows) (scored c j (ok 1) found)
      else answer (fail 500) rows []
