-- ===== src/Server/Timeouts.antt =====
-- internal/backend/backend.go: the sweep of matches that time out, and `dispatchDestroy`, with the
-- room that hears of them.
pub mod Later
use mr1v.Base.{
  ℕ, ◌≡◌, refl, Bool, true, false, not, none, some, List, [], ◌∷◌, ◌++◌, String, str_eq,
  if◌then◌else◌, arith, Bool-cases, inl, inr,
}
use mr1v.Server.Consumer.{MatchRow, hits, set_state, update}
use mr1v.Server.Consumer
use mr1v.Server.Status.{any_state, is_finished}
use mr1v.Server.Rooms.{Room, get_room, get_room_id_by_match_id, delete_room}
use mr1v.Server.Rooms.Handlers.{Reply, ok_reply, fail, final_status, match_ended_request}
use mr1v.Server.Rooms.Race.{all_succeed}

-- A match's new state, for the rooms' service: `notifyWxMatchEnded`.
pub record Notified : Type 0 where
  pub match_id : String
  pub state : String

-- The rows, the commands sent to agents by the match that they destroy, and what is told.
pub record Swept : Type 0 where
  pub matches : List MatchRow
  pub destroyed : List String
  pub told : List Notified

abbrev pub notified : String → String → Notified
notified id s = record { match_id = id; state = s }

-- `sweepTimeoutMatches` on the matches that its query found, by their ids. Whether the command is
-- published and the statement succeeds is given for each; neither stops the round.
unfoldable pub sweep_timeout_matches :
    (published updated : String → Bool) → List String → List MatchRow → Swept
sweep_timeout_matches published updated [] rows = record {
  matches = rows;
  destroyed = [];
  told = [];
}
sweep_timeout_matches published updated (id ∷ ids) rows =
    let rows' = if updated id then update id any_state "timeout" rows else rows in
    let later = sweep_timeout_matches published updated ids rows' in
    record {
      matches = later.matches;
      destroyed = (if published id then id ∷ [] else []) ++ later.destroyed;
      told = notified id "timeout" ∷ later.told;
    }

pub record Dispatched : Type 0 where
  pub reply : Reply
  pub matches : List MatchRow
  pub destroyed : List (String × Bool)
  pub told : List Notified

abbrev pub dispatched : Reply → List MatchRow → List (String × Bool) → List Notified → Dispatched
dispatched r rows ds ns = record { reply = r; matches = rows; destroyed = ds; told = ns }

-- `found` says whether the query for the match's agent finds it.
unfoldable pub dispatch_destroy :
    (found published updated force : Bool) → String → List MatchRow → Dispatched
dispatch_destroy found published updated force id rows =
    if str_eq id ""
    then dispatched (fail 400) rows [] []
    else if not found
    then dispatched (fail 404) rows [] []
    else if not published
    then dispatched (fail 500) rows [] []
    else dispatched ok_reply (if updated then update id any_state "terminated" rows else rows)
        ((id, force) ∷ []) (notified id "terminated" ∷ [])

-- The requests to the rooms' service.
abbrev pub tell : ℕ → List Notified → List Room → List Room
tell now [] rows = rows
tell now (n ∷ ns) rows =
    tell now ns
      (match_ended_request all_succeed now n.match_id n.state
        (get_room_id_by_match_id n.match_id rows) rows).rooms

row-overwritten :
    (id s : String) (r : MatchRow)
    → str_eq s "finished" ≡ false
    → hits id is_finished (set_state id any_state s r) ≡ false
row-overwritten id s r other = elim (Bool-cases (hits id any_state r)) [
  | inl e ↦ rw e (ground (arith, other))
  | inr e ↦ rw e (ground (arith, e))
]

update-overwritten :
    (id s : String) (rows : List MatchRow)
    → str_eq s "finished" ≡ false
    → Consumer.affects id is_finished (update id any_state s rows) ≡ false
unfolding Consumer.affects update
update-overwritten id s [] other = refl
update-overwritten id s (r ∷ rows) other =
    rw (row-overwritten id s r other, update-overwritten id s rows other) refl

removed-delete_room :
    (id s : String) (now : ℕ) (rooms : List Room) → get_room id (delete_room id s now rooms) ≡ none
unfolding delete_room get_room
removed-delete_room id s now [] = refl
removed-delete_room id s now (r ∷ rooms) = elim (Bool-cases (str_eq r.id id)) [
  | inl e ↦ rw (e, e) (removed-delete_room id s now rooms)
  | inr e ↦ rw (e, e) (removed-delete_room id s now rooms)
]

pub removed-match_ended_request :
    (match_id id s : String) (now : ℕ) (rooms : List Room)
    → str_eq match_id "" ≡ false
    → get_room_id_by_match_id match_id rooms ≡ some id
    → str_eq s "finished" ≡ false
    → get_room id
        (match_ended_request all_succeed now match_id s
          (get_room_id_by_match_id match_id rooms)
          rooms).rooms
      ≡ none
unfolding match_ended_request
removed-match_ended_request match_id id s now rooms proper found other =
    rw (found, proper, other) (removed-delete_room id (final_status all_succeed now s) now rooms)

-- A match that ends after the sweep's query found it, or before it is ended or destroyed from the
-- console, is finished no more: the row is overwritten, and its room, completed or not, is told and
-- leaves the list.
pub finished-overwritten :
    (match_id id : String) (force : Bool) (now : ℕ) (rows : List MatchRow) (rooms : List Room)
    → str_eq match_id "" ≡ false
    → get_room_id_by_match_id match_id rooms ≡ some id
    → let swept = sweep_timeout_matches (λ k. true) (λ k. true) (match_id ∷ []) rows in
      let ended = dispatch_destroy true true true force match_id rows in
      (Consumer.affects match_id is_finished swept.matches ≡ false)
      × (get_room id (tell now swept.told rooms) ≡ none)
      × (Consumer.affects match_id is_finished ended.matches ≡ false)
      × (get_room id (tell now ended.told rooms) ≡ none)
unfolding sweep_timeout_matches dispatch_destroy
finished-overwritten match_id id force now rows rooms proper found = (
  update-overwritten match_id "timeout" rows refl,
  removed-match_ended_request match_id id "timeout" now rooms proper found refl,
  rw proper (update-overwritten match_id "terminated" rows refl),
  rw proper (removed-match_ended_request match_id id "terminated" now rooms proper found refl),
)
