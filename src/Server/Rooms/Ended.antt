-- ===== src/Server/Rooms/Ended.antt =====
-- The end of a match, from internal/consumer/consumer.go to internal/wxserver/handlers/internal.go.
use mr1v.Base.{
  ℕ, ◌≡◌, refl, true, false, some, List, [], ◌∷◌, ◌++◌, String, str_eq, eq_iff, arith, ◌∙◌,
}
use mr1v.Server.Consumer.{
  Tables, MatchEnd, match_end, is_unfinished, Notice, round_update, match_ended, told_end, handle,
}
use mr1v.Server.Consumer
use mr1v.Server.Rooms.{
  Room, completed, is_room, is_match, get_room, get_room_id_by_match_id, update_room_score,
  complete_room,
}
use mr1v.Server.Rooms.Handlers.{match_ended_request, round_update_request}
use mr1v.Server.Rooms.Lookup.{
  get_room-update_where, get_room_id_by_match_id-update_where, get_room-is_room,
}
use mr1v.Server.Rooms.Race.{all_succeed}

-- A notice of the consumer's as the request that it makes; the state is always "finished".
abbrev pub request : ℕ → Notice → List Room → List Room
request now (round_update id c j) rows =
    (round_update_request all_succeed now id c j (get_room_id_by_match_id id rows) rows).rooms
request now (match_ended id) rows =
    (match_ended_request all_succeed now id "finished" (get_room_id_by_match_id id rows) rows).rooms

-- The requests in the order in which they arrive; each is sent by a goroutine of its own.
abbrev pub deliver : ℕ → List Notice → List Room → List Room
deliver now [] rows = rows
deliver now (n ∷ ns) rows = deliver now ns (request now n rows)

abbrev pub reversed : List Notice → List Notice
reversed [] = []
reversed (n ∷ ns) = reversed ns ++ (n ∷ [])

abbrev pub closed : MatchEnd → ℕ → Room → Room
closed d now r = record r {
  status = completed;
  score_creator = d.wins0;
  score_joiner = d.wins1;
  updated_at = now;
}

abbrev completed_at : ℕ → Room → Room
completed_at now r = record r { status = completed; updated_at = now }

abbrev scored_at : ℕ → ℕ → ℕ → Room → Room
scored_at c j now r = record r { score_creator = c; score_joiner = j; updated_at = now }

get_room-complete_room :
    (id : String) (now : ℕ) (rows : List Room) (r : Room)
    → get_room id rows ≡ some r
    → get_room id (complete_room id now rows) ≡ some (completed_at now r)
unfolding complete_room
get_room-complete_room id now rows r found =
    get_room-update_where (is_room id) (completed_at now) id (λ r. refl) rows
    ∙ (rw (found, get_room-is_room id rows r found) refl)

get_room-update_room_score :
    (id match_id : String) (c j now : ℕ) (rows : List Room) (r : Room)
    → get_room id rows ≡ some r
    → r.match_id ≡ match_id
    → get_room id (update_room_score match_id c j now rows) ≡ some (scored_at c j now r)
unfolding update_room_score
get_room-update_room_score id match_id c j now rows r found same =
    let room = get_room-is_room id rows r found in
    let hit : is_match match_id r ≡ true = ground (arith, room, eq_iff r.match_id match_id, same) in
    get_room-update_where (is_match match_id) (scored_at c j now) id (λ r. refl) rows
    ∙ (rw (found, hit) refl)

request-round_update :
    (match_id : String) (c j now : ℕ) (rows : List Room)
    → str_eq match_id "" ≡ false
    → request now (round_update match_id c j) rows ≡ update_room_score match_id c j now rows
unfolding round_update_request
request-round_update match_id c j now rows proper = rw (proper, request) refl

request-match_ended :
    (match_id id : String) (now : ℕ) (rows : List Room)
    → str_eq match_id "" ≡ false
    → get_room_id_by_match_id match_id rows ≡ some id
    → request now (match_ended match_id) rows ≡ complete_room id now rows
unfolding match_ended_request
request-match_ended match_id id now rows proper of_match = rw (proper, of_match, request) refl

still_found :
    (match_id : String) (c j now : ℕ) (rows : List Room)
    → get_room_id_by_match_id match_id (update_room_score match_id c j now rows)
      ≡ get_room_id_by_match_id match_id rows
unfolding update_room_score
still_found match_id c j now rows =
    get_room_id_by_match_id-update_where (is_match match_id) (scored_at c j now) match_id
      (λ r. refl) (λ r. refl) rows

-- The message that a match ended, once handled, completes the room of the match with the final
-- score, in whichever order the two requests arrive.
pub handle-deliver :
    (d : MatchEnd) (t : Tables) (id : String) (r : Room) (now : ℕ) (rows : List Room)
    → str_eq d.match_id "" ≡ false
    → Consumer.affects d.match_id is_unfinished t.matches ≡ true
    → get_room_id_by_match_id d.match_id rows ≡ some id
    → get_room id rows ≡ some r
    → r.match_id ≡ d.match_id
    → let told = (handle (λ n. true) (match_end (some d)) t).told in
      (get_room id (deliver now told rows) ≡ some (closed d now r))
      × (get_room id (deliver now (reversed told) rows) ≡ some (closed d now r))
unfolding handle
handle-deliver d t id r now rows proper unfinished of_match found same =
    let m = d.match_id in
    let scored = update_room_score m d.wins0 d.wins1 now rows in
    let still : get_room_id_by_match_id m scored ≡ some id =
      still_found m d.wins0 d.wins1 now rows ∙ of_match in
    rw unfinished (
      rw
          (
            request-round_update m d.wins0 d.wins1 now rows proper,
            request-match_ended m id now scored proper still,
          )
          (get_room-complete_room id now scored (scored_at d.wins0 d.wins1 now r)
            (get_room-update_room_score id m d.wins0 d.wins1 now rows r found same)),
      rw
          (
            request-match_ended m id now rows proper of_match,
            request-round_update m d.wins0 d.wins1 now (complete_room id now rows) proper,
          )
          (get_room-update_room_score id m d.wins0 d.wins1 now (complete_room id now rows)
            (completed_at now r) (get_room-complete_room id now rows r found) same),
    )
