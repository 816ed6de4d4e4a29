-- ===== src/Examples/Rooms.antt =====
-- The statements on the table of rooms, on two rooms and their players.
use mr1v.Base.{◌≡◌, refl, true, false, none, some, List, [], ◌∷◌, String, eq_iff, arith, ◌+◌}
use mr1v.Js.Text.{codes}
use mr1v.Server.Consumer.{
  Tables, MatchRow, MatchEnd, match_end, is_unfinished, handle, round_update, match_ended,
}
use mr1v.Server.Consumer
use mr1v.Server.Room.{Client, creator, joiner}
use mr1v.Server.Rooms.{
  Room, ready, matched, completed, new_room, has_active_room, get_room, get_room_id_by_match_id,
}
use mr1v.Server.Rooms.Handlers.{
  fail, answer, CreateRequest, create_request, join_request, trim_space,
}
use mr1v.Server.Rooms.Steps.{here, next, creates, joins}
use mr1v.Server.Rooms.Fit.{WellFormed}
use mr1v.Server.Rooms.Fit.Requests.{Reach-WellFormed}
use mr1v.Server.Rooms.Join.{Attempt, accepts, accepted, join_all, vacancy, join_all-vacancy}
use mr1v.Server.Rooms.Race.{all_succeed, active_rooms, create_request-create_request}
use mr1v.Server.Rooms.Ended.{deliver, reversed, closed, handle-deliver}
use mr1v.Server.Timeouts.{sweep_timeout_matches, dispatch_destroy, tell, finished-overwritten}
use mr1v.Server.Status.{is_finished, stopped, report, on_status}
use mr1v.Server.Rooms.Late.{errors, handle-on_status}

abbrev wanted : CreateRequest
wanted = record {
  title = codes "duel";
  password = "";
  category = "rifle";
  map_name = [];
  bot_test_mode = false;
}

abbrev waiting_room : Room
waiting_room = new_room "r1" (codes "duel") "o-anna" "" "rifle" [] false 100

abbrev matched_room : Room
matched_room = record waiting_room {
  joiner_openid = some "o-ben";
  status = matched;
  match_id = "m1";
  server_addr = "10.0.0.1:27015";
}

abbrev completed_room : Room
completed_room = record matched_room { status = completed; score_creator = 10 }

abbrev try_join : String → Attempt
try_join openid = record {
  ok = all_succeed;
  now = 200;
  openid = openid;
  given = "";
  room = some waiting_room;
  password = "";
}

join_all-vacancy_example :
    accepted (join_all "r1" (try_join "o-ben" ∷ try_join "o-cat" ∷ []) (waiting_room ∷ [])).0
      + vacancy "r1"
          (join_all "r1" (try_join "o-ben" ∷ try_join "o-cat" ∷ []) (waiting_room ∷ [])).1
    ≡ vacancy "r1" (waiting_room ∷ [])
join_all-vacancy_example =
    join_all-vacancy "r1" (try_join "o-ben" ∷ try_join "o-cat" ∷ []) (waiting_room ∷ [])

abbrev created : List Room
created = (create_request all_succeed 100 "r1" "o-anna" [] (some wanted) []).rooms

abbrev two_in : List Room
two_in = (join_request all_succeed 200 "r1" "o-ben" "" (some waiting_room) "" created).rooms

Reach-WellFormed_example : WellFormed "r1" false two_in
Reach-WellFormed_example = Reach-WellFormed "r1" false two_in (
    next (next here (creates all_succeed 100 "r1" "o-anna" [] (some wanted)))
      (joins all_succeed 200 "r1" "o-ben" "" (some waiting_room) ""))

create_request-create_request_example :
    let first =
      create_request all_succeed 100 "r2" "o-ben"
        (waiting_room ∷ [])
        (some wanted)
        (waiting_room ∷ []) in
    let after = create_request all_succeed 100 "r3" "o-ben" first.rooms (some wanted) first.rooms in
    let between =
      create_request all_succeed 100 "r3" "o-ben" (waiting_room ∷ []) (some wanted) first.rooms in
    (accepts first.reply ≡ 1)
    × (after ≡ answer (fail 409) first.rooms [])
    × (accepts between.reply ≡ 1)
    × (active_rooms "o-ben" between.rooms ≡ 2)
unfolding trim_space has_active_room
create_request-create_request_example =
    create_request-create_request "o-ben" "r2" "r3" wanted wanted 100 (waiting_room ∷ [])
      (refl, refl) (refl, refl) refl (ground (arith, eq_iff "r2" "r3")) refl refl

abbrev the_end : MatchEnd
the_end = record { match_id = "m1"; wins0 = 10; wins1 = 7; columns = [] }

abbrev playing : Tables
playing = record {
  matches = record { match_id = "m1"; state = "playing" } ∷ [];
  match_starts = [];
  round_ends = [];
  match_ends = [];
  batches = [];
  logs = [];
}

handle-deliver_example :
    let told = (handle (λ n. true) (match_end (some the_end)) playing).told in
    (get_room "r1" (deliver 400 told (matched_room ∷ [])) ≡ some (closed the_end 400 matched_room))
    × (get_room "r1" (deliver 400 (reversed told) (matched_room ∷ []))
        ≡ some (closed the_end 400 matched_room))
unfolding get_room get_room_id_by_match_id Consumer.affects
handle-deliver_example =
    handle-deliver the_end playing "r1" matched_room 400 (matched_room ∷ []) refl refl refl refl
      refl

abbrev anna : Client
anna = record {
  conn = 1;
  openid = "o-anna";
  name = "Anna";
  avatar = "";
  steam_id = "STEAM_0:0:11";
  role = creator;
}

abbrev ben : Client
ben = record {
  conn = 2;
  openid = "o-ben";
  name = "Ben";
  avatar = "";
  steam_id = "STEAM_0:1:22";
  role = joiner;
}

abbrev ready_room : Room
ready_room = record waiting_room { joiner_openid = some "o-ben"; status = ready }

finished-overwritten_example :
    let rows : List MatchRow = record { match_id = "m1"; state = "finished" } ∷ [] in
    let swept = sweep_timeout_matches (λ k. true) (λ k. true) ("m1" ∷ []) rows in
    let ended = dispatch_destroy true true true true "m1" rows in
    (Consumer.affects "m1" is_finished swept.matches ≡ false)
    × (get_room "r1" (tell 500 swept.told (completed_room ∷ [])) ≡ none)
    × (Consumer.affects "m1" is_finished ended.matches ≡ false)
    × (get_room "r1" (tell 500 ended.told (completed_room ∷ [])) ≡ none)
unfolding get_room_id_by_match_id
finished-overwritten_example =
    finished-overwritten "m1" "r1" true 500 (record { match_id = "m1"; state = "finished" } ∷ [])
      (completed_room ∷ []) refl refl

handle-on_status_example :
    let stops = on_status true (report "m1" stopped) in
    let first = handle (λ n. true) (match_end (some the_end)) playing in
    let then_stopped = stops first.tables.matches in
    let early = stops playing.matches in
    let late =
      handle (λ n. true) (match_end (some the_end)) (record playing { matches = early.matches }) in
    (get_room "r1"
        (tell 400 (errors then_stopped.ended) (deliver 400 first.told (matched_room ∷ [])))
      ≡ some (closed the_end 400 matched_room))
    × (Consumer.affects "m1" is_finished late.tables.matches ≡ true)
    × (get_room "r1" (deliver 400 late.told (tell 400 (errors early.ended) (matched_room ∷ [])))
        ≡ none)
unfolding get_room get_room_id_by_match_id Consumer.affects
handle-on_status_example =
    handle-on_status the_end playing "r1" matched_room 400 (matched_room ∷ []) refl refl refl refl
      refl
