-- ===== src/Server/Rooms/Steps.antt =====
-- The table of rooms under the requests of internal/wxserver, the hubs' calls of the store, the sweep
-- and the deletion of players in internal/backend/backend.go, in any order. A query may have seen any earlier table, so what it saw is arbitrary.
use mr1v.Base.{ℕ, Bool, true, false, ◌||◌, Option, List, [], String}
use mr1v.Server.Rooms.{Room, leave_room, set_room_matched, delete_room, sweep}
use mr1v.Server.Rooms.Handlers.{
  CreateRequest, create_request, join_request, leave_request, match_ended_request,
  round_update_request,
}
use mr1v.Server.Accounts.{Tables}
use mr1v.Server.Accounts.Manage.{delete_wx_user}

-- The index says whether the step deletes a player.
pub data Step (rows : List Room) : Bool → List Room → Type 0 where
  creates :
      (ok : ℕ → Bool) (now : ℕ) (id openid : String) (seen : List Room) (q : Option CreateRequest)
      → Step rows false (create_request ok now id openid seen q rows).rooms
  joins :
      (ok : ℕ → Bool) (now : ℕ) (id openid given : String) (room : Option Room) (password : String)
      → Step rows false (join_request ok now id openid given room password rows).rooms
  leaves :
      (ok : ℕ → Bool) (now : ℕ) (id openid : String) (room : Option Room)
      → Step rows false (leave_request ok now id openid room rows).rooms
  match_ends :
      (ok : ℕ → Bool) (now : ℕ) (match_id state : String) (found : Option String)
      → Step rows false (match_ended_request ok now match_id state found rows).rooms
  round_ends :
      (ok : ℕ → Bool) (now : ℕ) (match_id : String) (c j : ℕ) (found : Option String)
      → Step rows false (round_update_request ok now match_id c j found rows).rooms
  hub_leaves : (id openid : String) (now : ℕ) → Step rows false (leave_room id openid now rows)
  hub_closes : (id : String) (now : ℕ) → Step rows false (delete_room id "closed" now rows)
  hub_matches :
      (id match_id addr : String) (now : ℕ)
      → Step rows false (set_room_matched id match_id addr now rows)
  sweeps :
      (is_active : String → Bool) (now : ℕ) (ids : List String)
      → Step rows false (sweep is_active now ids rows)
  deletes_player :
      (ok : ℕ → Bool) (openid : String) (t : Tables)
      → Step rows true (delete_wx_user ok openid t rows).2

-- A table that can be reached, and whether a player was deleted on the way.
pub data Reach : Bool → List Room → Type 0 where
  here : Reach false []
  next :
      {rows rows' : List Room} {before deletes : Bool}
      → Reach before rows
      → Step rows deletes rows'
      → Reach (deletes || before) rows'
