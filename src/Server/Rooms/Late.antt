-- ===== src/Server/Rooms/Late.antt =====
-- The end of a match, of which the agent reports that its container stopped, internal/agent/agent.go
-- and internal/backend/backend.go, and the consumer that the game is over, by two ways that can
-- overtake each other.
use mr1v.Base.{
  ℕ, ◌≡◌, refl, Bool, true, false, Bool-cases, inl, inr, Option, none, some, List, [], ◌∷◌, map,
  String, str_eq, arith, ◌∙◌,
}
use mr1v.Server.Consumer.{
  MatchRow, Tables, MatchEnd, match_end, is_unfinished, Notice, round_update, match_ended, told_end,
  handle, hits, set_state, update,
}
use mr1v.Server.Consumer
use mr1v.Server.Status.{stopped, is_live, is_finished, report, on_status}
use mr1v.Server.Rooms.{
  Room, is_room, is_match, update_where, get_room, get_room_id_by_match_id, update_room_score,
  complete_room,
}
use mr1v.Server.Rooms.Handlers.{match_ended_request, round_update_request}
use mr1v.Server.Rooms.Lookup.{get_room-update_where}
use mr1v.Server.Rooms.Ended.{request, deliver, closed, handle-deliver}
use mr1v.Server.Rooms.Race.{all_succeed}
use mr1v.Server.Timeouts.{Notified, notified, tell, removed-match_ended_request}

-- `onStatus` tells the rooms' service of each match that it set to "error".
abbrev pub errors : List String → List Notified
errors ids = map (λ m. notified m "error") ids

row-unfinished :
    (m : String) (r : MatchRow)
    → hits m is_unfinished (set_state m is_live "error" r) ≡ hits m is_unfinished r
row-unfinished m r = elim (Bool-cases (hits m is_live r)) [
  | inl e ↦ rw e ground (arith, e)
  | inr e ↦ rw e refl
]

update-unfinished :
    (m : String) (rows : List MatchRow)
    → Consumer.affects m is_unfinished (update m is_live "error" rows)
      ≡ Consumer.affects m is_unfinished rows
unfolding Consumer.affects update
update-unfinished m [] = refl
update-unfinished m (r ∷ rows) = rw (row-unfinished m r, update-unfinished m rows) refl

live-unfinished :
    (m : String) (rows : List MatchRow)
    → Consumer.affects m is_live rows ≡ true
    → Consumer.affects m is_unfinished rows ≡ true
unfolding Consumer.affects
live-unfinished m [] h = h
live-unfinished m (r ∷ rows) h = ground (arith, live-unfinished m rows)

row-finished :
    (m : String) (r : MatchRow)
    → (hits m is_finished (set_state m is_unfinished "finished" r) ≡ str_eq r.match_id m)
      × (hits m is_live (set_state m is_unfinished "finished" r) ≡ false)
row-finished m r = elim (Bool-cases (hits m is_unfinished r)) [
  | inl e ↦ rw e (ground (arith, e), ground (arith, e))
  | inr e ↦ rw e (ground (arith, e), ground (arith, e))
]

update-finished :
    (m : String) (rows : List MatchRow)
    → Consumer.affects m is_unfinished rows ≡ true
    → Consumer.affects m is_finished (update m is_unfinished "finished" rows) ≡ true
unfolding Consumer.affects update
update-finished m [] h = h
update-finished m (r ∷ rows) h = rw ((row-finished m r).0) (ground (arith, update-finished m rows))

update-dead :
    (m : String) (rows : List MatchRow)
    → Consumer.affects m is_live (update m is_unfinished "finished" rows) ≡ false
unfolding Consumer.affects update
update-dead m [] = refl
update-dead m (r ∷ rows) = rw ((row-finished m r).1, update-dead m rows) refl

-- A room that is gone is not brought back by a notice of the consumer's.
gone-update_where :
    (test : Room → Bool) (f : Room → Room) (id : String) (rows : List Room)
    → ((r : Room) → is_room id (f r) ≡ is_room id r)
    → get_room id rows ≡ none
    → get_room id (update_where test f rows) ≡ none
gone-update_where test f id rows same h = get_room-update_where test f id same rows ∙ (rw h refl)

gone-score :
    (m : String) (c j : ℕ) (found : Option String) (id : String) (now : ℕ) (rows : List Room)
    → get_room id rows ≡ none
    → get_room id (round_update_request all_succeed now m c j found rows).rooms ≡ none
unfolding round_update_request update_room_score
gone-score m c j found id now rows h = elim (Bool-cases (str_eq m "")) [
  | inl e ↦ rw e h
  | inr e ↦ rw e (gone-update_where (is_match m) _ id rows (λ r. refl) h)
]

gone-ended :
    (m : String) (found : Option String) (id : String) (now : ℕ) (rows : List Room)
    → get_room id rows ≡ none
    → get_room id (match_ended_request all_succeed now m "finished" found rows).rooms ≡ none
unfolding match_ended_request complete_room
gone-ended m none id now rows h = elim (Bool-cases (str_eq m "")) [
  | inl e ↦ rw e h
  | inr e ↦ rw e h
]
gone-ended m (some k) id now rows h = elim (Bool-cases (str_eq m "")) [
  | inl e ↦ rw e h
  | inr e ↦ rw e (gone-update_where (is_room k) _ id rows (λ r. refl) h)
]

gone-told_end :
    (d : MatchEnd) (b : Bool) (id : String) (now : ℕ) (rows : List Room)
    → get_room id rows ≡ none
    → get_room id (deliver now (told_end d b) rows) ≡ none
gone-told_end d false id now rows h = h
gone-told_end d true id now rows h =
    let m = d.match_id in
    let scored = request now (round_update m d.wins0 d.wins1) rows in
    gone-ended m (get_room_id_by_match_id m scored) id now scored
      (gone-score m d.wins0 d.wins1 (get_room_id_by_match_id m rows) id now rows h)

-- A match that is under way ends, and its room is matched. If the consumer hears of the end before
-- the backend hears that the container stopped, the room is completed with the final score. In the
-- other order the match is finished in the end as well, but its room is deleted and stays so.
pub handle-on_status :
    (d : MatchEnd) (t : Tables) (id : String) (r : Room) (now : ℕ) (rows : List Room)
    → str_eq d.match_id "" ≡ false
    → Consumer.affects d.match_id is_live t.matches ≡ true
    → get_room_id_by_match_id d.match_id rows ≡ some id
    → get_room id rows ≡ some r
    → r.match_id ≡ d.match_id
    → let stops = on_status true (report d.match_id stopped) in
      let first = handle (λ n. true) (match_end (some d)) t in
      let then_stopped = stops first.tables.matches in
      let early = stops t.matches in
      let late = handle (λ n. true) (match_end (some d)) (record t { matches = early.matches }) in
      (get_room id (tell now (errors then_stopped.ended) (deliver now first.told rows))
        ≡ some (closed d now r))
      × (Consumer.affects d.match_id is_finished late.tables.matches ≡ true)
      × (get_room id (deliver now late.told (tell now (errors early.ended) rows)) ≡ none)
unfolding handle on_status
handle-on_status d t id r now rows proper live of_match found same =
    let m = d.match_id in
    let unfinished = live-unfinished m t.matches live in
    let done = handle-deliver d t id r now rows proper unfinished of_match found same in
    let still : Consumer.affects m is_unfinished (update m is_live "error" t.matches) ≡ true =
      update-unfinished m t.matches ∙ unfinished in
    let gone = removed-match_ended_request m id "error" now rows proper of_match refl in
    (
      rw (update-dead m t.matches) (done.0),
      update-finished m (update m is_live "error" t.matches) still,
      rw (live, still) (gone-told_end d true id now _ gone),
    )
