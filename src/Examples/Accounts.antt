-- ===== src/Examples/Accounts.antt =====
-- Players, their sessions and the sessions of the console at concrete inputs.
use mr1v.Base.{ℕ, All, ◌≡◌, ◌≢◌, ◌⊎◌, refl, true, false, none, some, List, [], ◌∷◌, String, arith}
use mr1v.Js.Text.{codes, starts_with}
use mr1v.Server.Room.{joiner}
use mr1v.Server.Rooms.{Room, ready, get_room, new_room}
use mr1v.Server.Rooms.Handlers.{
  trim_space, fail, answer, join_request, leave_request, CreateRequest, create_request,
}
use mr1v.Server.Rooms.Join.{Attempt, join_all, accepted}
use mr1v.Server.Rooms.Race.{all_succeed}
use mr1v.Server.Accounts.{User, Tables, session_user, get_openid_by_token}
use mr1v.Server.Accounts.Handlers.{
  passes, refuses, auth, admits, turned_away, room_ws, login_end, feedback_request,
}
use mr1v.Server.Accounts.Manage.{Patch, update_wx_user, delete_wx_user}
use mr1v.Server.Accounts.Steps.{
  Statement, upserts, starts_session, sets_steam_id, deletes, updates, run_all,
}
use mr1v.Server.Accounts.Lockout.Auth.{whose, update_wx_user-auth}
use mr1v.Server.Accounts.Undeletable.{feedback_request-delete_wx_user}
use mr1v.Server.Accounts.Delete.{vacated, delete_wx_user-join_all}
use mr1v.Server.Accounts.Integrity.{IsUnique, IsOwned}
use mr1v.Server.Accounts.Integrity.Reached.{no_tables, run_all-IsOwned}
use mr1v.Server.Accounts.Page.{
  list_wx_users, wx_user_row, serve_all, change_rows, switched, edited, status_text, Shows,
  serve_all-list_wx_users,
}
use mr1v.Console.Users
use mr1v.Console.Users.{UserValues, handle_toggle_status, submit_edit}
use mr1v.Server.Rooms.Entry.{join_request-room_ws}
use mr1v.Server.Guard
use mr1v.Server.Guard.{Config, Request, Event, logs_in, logs_out, sessions_after, guard}
use mr1v.Server.Guard.History.{guard-sessions_after}

abbrev player : String → User
player openid = record {
  openid = openid;
  steam_id = "";
  nickname = "n";
  avatar_url = "";
  status = "enabled";
  created_at = 1;
  updated_at = 1;
}

abbrev two_players : Tables
two_players = record {
  users = player "a" ∷ player "b" ∷ [];
  sessions = record { token = "t"; openid = "b"; created_at = 2 } ∷ [];
  feedback = [];
}

abbrev disable : Patch
disable = record { status = some "disabled"; steam_id = none; nickname = none; avatar_url = none }

-- The player logs in again, and the console changes another player.
abbrev logins : List Statement
logins = upserts "b" "x" "y" 4 ∷ starts_session "u" "b" 5 ∷ updates true "a" (some disable) 6 ∷ []

abbrev locked_out : Tables
locked_out = run_all logins (update_wx_user true 3 "b" (some disable) two_players).1

update_wx_user-auth_example :
    ((auth "t" locked_out ≡ refuses 403) ⊎ (whose (session_user "t" locked_out) ≢ some "b"))
    × (auth "t" locked_out ≢ passes "b")
    × (get_openid_by_token "t" locked_out ≢ some "b")
    × (room_ws "t" none locked_out ≢ admits joiner "b")
    × (login_end all_succeed 9 "v" "b" locked_out two_players ≡ (fail 403, two_players))
unfolding update_wx_user
update_wx_user-auth_example =
    update_wx_user-auth 3 "b" disable two_players logins "t" all_succeed 9 "v" none joiner
      two_players refl refl (refl, (refl, (refl, tt))) refl

abbrev after_feedback : Tables
after_feedback =
    run_all (deletes all_succeed "b" ∷ [])
      (feedback_request all_succeed 3 "b" (some (codes " hi ")) two_players).1

feedback_request-delete_wx_user_example :
    delete_wx_user all_succeed "b" after_feedback [] ≡ (fail 500, after_feedback, [])
unfolding feedback_request
feedback_request-delete_wx_user_example =
    feedback_request-delete_wx_user all_succeed 3 "b" (some (codes " hi ")) two_players
      (deletes all_succeed "b" ∷ []) all_succeed [] refl

abbrev ready_room : Room
ready_room = record (new_room "r" (codes "x") "a" "" "rifle" [] false 1) {
  joiner_openid = some "b";
  status = ready;
}

abbrev another : CreateRequest
another = record {
  title = codes "y";
  password = "";
  category = "rifle";
  map_name = [];
  bot_test_mode = false;
}

abbrev rooms_left : List Room
rooms_left = (delete_wx_user all_succeed "b" two_players (ready_room ∷ [])).2

abbrev attempts : List Attempt
attempts =
    record {
      ok = all_succeed;
      now = 7;
      openid = "c";
      given = "";
      room = some (vacated ready_room);
      password = "";
    }
    ∷ []

delete_wx_user-join_all_example :
    (whose (session_user "t" (delete_wx_user all_succeed "b" two_players (ready_room ∷ [])).1)
      ≢ some "b")
    × (get_room "r" rooms_left ≡ some (vacated ready_room))
    × (accepted (join_all "r" attempts rooms_left).0 ≡ 0)
    × (create_request all_succeed 8 "s" "a" rooms_left (some another) rooms_left
        ≡ answer (fail 409) rooms_left [])
unfolding delete_wx_user get_room trim_space
delete_wx_user-join_all_example =
    delete_wx_user-join_all all_succeed "b" two_players (ready_room ∷ []) "t" "r" "s" ready_room
      attempts another 8 refl refl refl refl refl (omega arith) (refl, refl)

abbrev config : Config
config = record { admin_user = "admin"; admin_pass = "p"; internal_api_key = "k" }

abbrev ask : Request
ask = record { path = codes "/api/manager/matches"; api_key = ""; cookie = some "t1" }

-- A login, and a refused one after it.
abbrev history : List Event
history = logs_in "t2" (some ("admin", "q")) ∷ logs_in "t1" (some ("admin", "p")) ∷ []

guard-sessions_after_example :
    guard config (codes "/api/manager") (sessions_after config history) ask ≡ Guard.passes
unfolding starts_with
guard-sessions_after_example =
    guard-sessions_after config (codes "/api/manager") history ask refl refl refl

-- A player logs in, and another one takes the SteamID of the first.
abbrev arrivals : List Statement
arrivals =
    upserts "a" "x" "y" 1
    ∷ starts_session "t" "a" 2
    ∷ sets_steam_id "a" "s" 3
    ∷ upserts "b" "x" "y" 4
    ∷ sets_steam_id "b" "s" 5
    ∷ []

run_all-IsOwned_example :
    IsUnique "s" (run_all arrivals no_tables) × IsOwned (run_all arrivals no_tables)
run_all-IsOwned_example = run_all-IsOwned arrivals "s"

abbrev no_date : ℕ → String
no_date now = ""

abbrev shown : Users.WxUser
shown = wx_user_row no_date (player "b")

abbrev values : UserValues
values = record { nickname = "Ben"; steam_id = "s1"; avatar_url = "" }

abbrev editing : Users.Page
editing = record { users = record { rows = shown ∷ []; loading = false }; editing = some shown }

serve_all-list_wx_users_example :
    (list_wx_users no_date (serve_all 9 (handle_toggle_status shown false) two_players)
      ≡ change_rows "b" (switched (status_text false) "") (list_wx_users no_date two_players))
    × All
        (Shows "b" false)
        (list_wx_users no_date (serve_all 9 (handle_toggle_status shown false) two_players))
    × (list_wx_users no_date (serve_all 9 (submit_edit (some values) editing) two_players)
        ≡ change_rows "b" (edited values "") (list_wx_users no_date two_players))
serve_all-list_wx_users_example =
    serve_all-list_wx_users no_date 9 two_players shown false values editing refl refl

abbrev open_room : Room
open_room = new_room "r" (codes "x") "a" "" "rifle" [] false 1

abbrev joined_rooms : List Room
joined_rooms =
    (join_request all_succeed 5 "r" "b" "" (get_room "r" (open_room ∷ [])) ""
      (open_room ∷ [])).rooms

join_request-room_ws_example :
    (room_ws "t" (get_room "r" joined_rooms) two_players ≡ admits joiner "b")
    × (room_ws "t"
          (get_room "r"
            (leave_request all_succeed 6 "r" "b" (get_room "r" joined_rooms) joined_rooms).rooms)
          two_players
        ≡ turned_away 403)
unfolding get_room join_request get_openid_by_token
join_request-room_ws_example =
    join_request-room_ws all_succeed "r" "b" "" "" "t" 5 6 (open_room ∷ []) open_room two_players
      refl (omega arith) refl refl
