-- ===== src/Server/Rooms.antt =====
-- internal/wxserver/store/store.go: the table wx_rooms and the statements on it. `Handlers` has the
-- requests of internal/wxserver/handlers, `Steps` the table under all of them in any order.
pub mod Handlers
pub mod Steps
pub mod Fit
pub mod Lookup
pub mod Join
pub mod Race
pub mod Leave
pub mod Ended
pub mod Late
pub mod Entry
pub mod Hub
use mr1v.Base.{
  ℕ, ◌+◌, ◌≡◌, Bool, true, false, not, ◌&&◌, ◌||◌, Option, none, some, List, [], ◌∷◌, ◌++◌, String,
  str_eq, ltb, if◌then◌else◌,
}
use mr1v.Js.Text.{Text}

-- The column status. What `DeleteRoom` writes is any text, `ended` for all but the four that
-- the program tests for.
pub data Status : Type 0 where
  waiting ready matched completed : Status
  ended : String → Status

abbrev pub status_of : String → Status
status_of s =
    if str_eq s "waiting"
    then waiting
    else if str_eq s "ready"
    then ready
    else if str_eq s "matched"
    then matched
    else if str_eq s "completed"
    then completed
    else ended s

-- A row of wx_rooms; times are seconds.
pub record Room : Type 0 where
  pub id : String
  pub title : Text
  pub creator_openid : String
  pub joiner_openid : Option String
  pub password : String
  pub status : Status
  pub server_addr : String
  pub match_id : String
  pub score_creator : ℕ
  pub score_joiner : ℕ
  pub category : String
  pub map_name : Text
  pub bot_test_mode : Bool
  pub updated_at : ℕ
  pub deleted_at : Option ℕ

abbrev pub is_live : Option ℕ → Bool
is_live none = true
is_live (some t) = false

abbrev pub is_waiting : Status → Bool
is_waiting waiting = true
is_waiting _ = false

-- `status IN ('waiting','ready')`.
abbrev pub is_open : Status → Bool
is_open waiting = true
is_open ready = true
is_open _ = false

abbrev pub is_vacant : Option String → Bool
is_vacant none = true
is_vacant (some o) = false

abbrev pub is_joiner : String → Option String → Bool
is_joiner openid none = false
is_joiner openid (some o) = str_eq o openid

-- `UPDATE … WHERE`, whether it affects a row, and the first row of a `SELECT`.
module _ {ℓ} {A : Type ℓ} (test : A → Bool) where
  abbrev pub update_where : (A → A) → List A → List A
  update_where f [] = []
  update_where f (a ∷ rest) = (if test a then f a else a) ∷ update_where f rest

  abbrev pub affects : List A → Bool
  affects [] = false
  affects (a ∷ rest) = test a || affects rest

abbrev pub is_room : String → Room → Bool
is_room id r = str_eq r.id id && is_live r.deleted_at

abbrev pub is_match : String → Room → Bool
is_match match_id r = str_eq r.match_id match_id && is_live r.deleted_at

abbrev pub is_active_of : String → Room → Bool
is_active_of openid r = str_eq r.creator_openid openid && is_open r.status && is_live r.deleted_at

unfoldable pub has_active_room : String → List Room → Bool
has_active_room openid rows = affects (is_active_of openid) rows

abbrev pub new_room : String → Text → String → String → String → Text → Bool → ℕ → Room
new_room id title creator password category map_name bot now = record {
  id = id;
  title = title;
  creator_openid = creator;
  joiner_openid = none;
  password = password;
  status = waiting;
  server_addr = "";
  match_id = "";
  score_creator = 0;
  score_joiner = 0;
  category = category;
  map_name = map_name;
  bot_test_mode = bot;
  updated_at = now;
  deleted_at = none;
}

-- The id is the primary key; an insert of one that is there fails.
unfoldable pub create_room : Room → List Room → Option (List Room)
create_room r rows = if affects (λ q. str_eq q.id r.id) rows then none else some (rows ++ (r ∷ []))

unfoldable pub get_room : String → List Room → Option Room
get_room id [] = none
get_room id (r ∷ rows) = if is_room id r then some r else get_room id rows

unfoldable pub get_room_id_by_match_id : String → List Room → Option String
get_room_id_by_match_id match_id [] = none
get_room_id_by_match_id match_id (r ∷ rows) =
    if is_match match_id r then some r.id else get_room_id_by_match_id match_id rows

-- An unknown room has the empty password.
unfoldable pub get_room_password : String → List Room → String
get_room_password id [] = ""
get_room_password id (r ∷ rows) = if is_room id r then r.password else get_room_password id rows

abbrev pub is_joinable : String → Room → Bool
is_joinable id r = is_room id r && is_vacant r.joiner_openid && is_waiting r.status

abbrev pub joined : String → ℕ → Room → Room
joined openid now r = record r { joiner_openid = some openid; status = ready; updated_at = now }

-- `JoinRoom`: `none` is ErrRoomNotJoinable.
unfoldable pub join_room : String → String → ℕ → List Room → Option (List Room)
join_room id openid now rows =
    if affects (is_joinable id) rows
    then some (update_where (is_joinable id) (joined openid now) rows)
    else none

abbrev pub left : ℕ → Room → Room
left now r = record r { joiner_openid = none; status = waiting; updated_at = now }

unfoldable pub leave_room : String → String → ℕ → List Room → List Room
leave_room id openid now =
    update_where (λ r. is_room id r && is_joiner openid r.joiner_openid) (left now)

unfoldable pub set_room_matched : String → String → String → ℕ → List Room → List Room
set_room_matched id match_id addr now =
    update_where (is_room id)
      λ r. record r { status = matched; match_id = match_id; server_addr = addr; updated_at = now }

abbrev pub ended_as : String → Status → Status
ended_as s completed = completed
ended_as s waiting = status_of s
ended_as s ready = status_of s
ended_as s matched = status_of s
ended_as s (ended e) = status_of s

-- `DeleteRoom` marks a row that was deleted before once more.
unfoldable pub delete_room : String → String → ℕ → List Room → List Room
delete_room id s now =
    update_where (λ r. str_eq r.id id)
      λ r. record r { status = ended_as s r.status; updated_at = now; deleted_at = some now }

unfoldable pub update_room_score : String → ℕ → ℕ → ℕ → List Room → List Room
update_room_score match_id c j now =
    update_where (is_match match_id)
      λ r. record r { score_creator = c; score_joiner = j; updated_at = now }

unfoldable pub complete_room : String → ℕ → List Room → List Room
complete_room id now =
    update_where (is_room id) (λ r. record r { status = completed; updated_at = now })

abbrev pub is_stale : ℕ → ℕ → Room → Bool
is_stale idle now r = is_open r.status && is_live r.deleted_at && ltb (r.updated_at + idle) now

unfoldable pub stale_room_ids : ℕ → ℕ → List Room → List String
stale_room_ids idle now [] = []
stale_room_ids idle now (r ∷ rows) =
    let rest = stale_room_ids idle now rows in if is_stale idle now r then r.id ∷ rest else rest

-- One round of `sweepStaleRooms` over the ids it read; `is_active` asks the manager of hubs. A room
-- whose statement fails stays as an active one does.
unfoldable pub sweep : (String → Bool) → ℕ → List String → List Room → List Room
unfolding delete_room
sweep is_active now [] rows = rows
sweep is_active now (id ∷ ids) rows =
    sweep is_active now ids (if is_active id then rows else delete_room id "timeout" now rows)
