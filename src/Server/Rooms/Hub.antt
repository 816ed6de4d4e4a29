-- ===== src/Server/Rooms/Hub.antt =====
-- The hub of a room, internal/wxserver/room/hub.go, and its row, internal/wxserver/store/store.go.
use mr1v.Base.{
  ℕ, ◌+◌, ◌≡◌, ◌≢◌, refl, Bool, true, false, ◌&&◌, Option, none, some, List, [], ◌∷◌, ◌++◌, String,
  str_eq, eq_iff, arith, Bool-cases, inl, inr, ◌∙◌,
}
use mr1v.Server.Room
use mr1v.Server.Room.{
  Client, joiner, player_left, send_to, kicked, Effect, confirm, read, detach, Task,
}
use mr1v.Server.Room.Steps.{alone, handle_kick_joiner}
use mr1v.Server.Room.Leave.{as_creator, as_joiner, with_joiner, vacated, emptied, detach_joiner}
use mr1v.Server.Room.Again.{paired, confirm-confirm}
use mr1v.Server.Consumer.{round_update, match_ended}
use mr1v.Server.Rooms.{
  Room, left, matched, is_room, is_match, is_joiner, get_room, get_room_id_by_match_id, leave_room,
  set_room_matched, delete_room, update_room_score,
}
use mr1v.Server.Rooms.Handlers.{match_ended_request, round_update_request}
use mr1v.Server.Rooms.Lookup.{get_room-update_where, get_room-is_room}
use mr1v.Server.Rooms.Ended.{request}

-- The hub's calls of the store for its room.
abbrev pub store_effect : ℕ → String → Effect → List Room → List Room
store_effect now id (Room.send c e) rows = rows
store_effect now id (Room.close c) rows = rows
store_effect now id Room.delete_room rows = delete_room id "closed" now rows
store_effect now id Room.on_empty rows = rows
store_effect now id (Room.leave_room openid) rows = leave_room id openid now rows
store_effect now id (Room.set_room_matched m a) rows = set_room_matched id m a now rows
store_effect now id (Room.post_match p0 p1) rows = rows

abbrev pub store_effects : ℕ → String → List Effect → List Room → List Room
store_effects now id [] rows = rows
store_effects now id (e ∷ es) rows = store_effects now id es (store_effect now id e rows)

abbrev pub effects_of : Option (Room.Hub × List Effect) → List Effect
effects_of none = []
effects_of (some (h, es)) = es

-- The rows of a match that has no room.
abbrev set_matched : String → String → ℕ → Room → Room
set_matched m a now r = record r {
  status = matched;
  match_id = m;
  server_addr = a;
  updated_at = now;
}

missed :
    (m : String) (r : Room) (rows : List Room)
    → get_room_id_by_match_id m (r ∷ rows) ≡ none
    → (is_match m r ≡ false) × (get_room_id_by_match_id m rows ≡ none)
unfolding get_room_id_by_match_id
missed m r rows free = elim (Bool-cases (is_match m r)) [
  | inl e ↦ absurd (ground (arith, e, free))
  | inr e ↦ (e, rw e at free)
]

overwritten :
    (id m m' a a' : String) (now : ℕ) (rows : List Room)
    → m ≢ m'
    → get_room_id_by_match_id m rows ≡ none
    → get_room_id_by_match_id m (set_room_matched id m' a' now (set_room_matched id m a now rows))
      ≡ none
unfolding set_room_matched get_room_id_by_match_id
overwritten id m m' a a' now [] apart free = refl
overwritten id m m' a a' now (r ∷ rows) apart free =
    let (foreign, rest) = missed m r rows free in
    let later = overwritten id m m' a a' now rows apart rest in
    let differs : str_eq m' m ≡ false = ground (arith, eq_iff m' m, apart) in
    elim (Bool-cases (is_room id r)) [
      | inl e ↦ rw (e, e, differs) later
      | inr e ↦ rw (e, e, foreign) later
    ]

unmatched-update_room_score :
    (m : String) (c j now : ℕ) (rows : List Room)
    → get_room_id_by_match_id m rows ≡ none
    → update_room_score m c j now rows ≡ rows
unfolding update_room_score get_room_id_by_match_id
unmatched-update_room_score m c j now [] free = refl
unmatched-update_room_score m c j now (r ∷ rows) free =
    let (foreign, rest) = missed m r rows free in
    rw (foreign, unmatched-update_room_score m c j now rows rest) refl

unheard :
    (m : String) (x y now : ℕ) (rows : List Room)
    → get_room_id_by_match_id m rows ≡ none
    → (request now (round_update m x y) rows ≡ rows) × (request now (match_ended m) rows ≡ rows)
unfolding round_update_request match_ended_request
unheard m x y now rows free =
    (ground (arith, unmatched-update_room_score m x y now rows free), ground (arith, free))

-- After the creator confirmed twice, as above, the table has the second match only: the scores and
-- the end of the first, which no room has, change nothing and reach no player.
pub confirm-lost :
    (c j : Client) (b : Bool) (m m' addr addr' id : String) (h : Room.Hub) (n now : ℕ)
    (rows : List Room) (x y : ℕ)
    → m ≢ m'
    → get_room_id_by_match_id m rows ≡ none
    → let first =
        alone (7 + n) (some (m, addr)) (read (as_creator c) confirm ∷ []) (paired c j b true h) in
      let second =
        alone
          (7 + n)
          (some (m', addr'))
          (read (as_creator c) confirm ∷ [])
          (record (paired c j true true h) {
            is_matched = true;
            match_id = m;
            server_addr = addr;
          }) in
      let after = store_effects now id (effects_of first ++ effects_of second) rows in
      (get_room_id_by_match_id m after ≡ none)
      × (request now (round_update m x y) after ≡ after)
      × (request now (match_ended m) after ≡ after)
confirm-lost c j b m m' addr addr' id h n now rows x y apart free =
    let (one, two) = confirm-confirm c j b m addr m' addr' h n in
    let none_left = overwritten id m m' addr addr' now rows apart free in
    let (score, ended) =
      unheard m x y now (set_room_matched id m' addr' now (set_room_matched id m addr now rows))
        none_left in
    rw (one, two) (none_left, score, ended)

get_room-leave_room :
    (id openid : String) (r : Room) (now : ℕ) (rows : List Room)
    → get_room id rows ≡ some r
    → r.joiner_openid ≡ some openid
    → get_room id (leave_room id openid now rows) ≡ some (left now r)
unfolding leave_room
get_room-leave_room id openid r now rows found joins =
    let hit : is_joiner openid r.joiner_openid ≡ true = rw joins ((eq_iff openid openid).1 refl) in
    get_room-update_where (λ r. is_room id r && is_joiner openid r.joiner_openid) (left now) id
      (λ r. refl) rows
    ∙ (rw (found, get_room-is_room id rows r found, hit) refl)

quiet :
    (now : ℕ) (id : String) (s : Option Room.Slot) (e : Room.Event) (rows : List Room)
    → store_effects now id (send_to s e ++ emptied s) rows ≡ rows
quiet now id none e rows = refl
quiet now id (some s) e rows = refl

told :
    (now : ℕ) (id : String) (s : Option Room.Slot) (e : Room.Event) (rows : List Room)
    → store_effects now id (send_to s e) rows ≡ rows
told now id none e rows = refl
told now id (some s) e rows = refl

-- The joiner's leaving and the creator's kick before the match bring the hub and the table to the
-- same: a hub without the joiner, and a row that waits with no joiner.
pub vacated-store_effects :
    (j : Client) (b explicit : Bool) (id : String) (r : Room) (h : Room.Hub) (n now : ℕ)
    (reply : Option (String × String)) (rows : List Room)
    → get_room id rows ≡ some r
    → r.joiner_openid ≡ some j.openid
    → let gone = alone (5 + n) reply (detach (as_joiner j) explicit ∷ []) (with_joiner j b h) in
      let kicked = handle_kick_joiner (with_joiner j b h) in
      (get_room id (store_effects now id (effects_of gone) rows) ≡ some (left now r))
      × (get_room id (store_effects now id kicked.done rows) ≡ some (left now r))
      × (kicked.hub ≡ vacated (with_joiner j b h))
unfolding handle_kick_joiner
vacated-store_effects j b explicit id r h n now reply rows found joins =
    let after = get_room-leave_room id j.openid r now rows found joins in
    let e = player_left joiner j.name in
    let rows' = leave_room id j.openid now rows in
    (
      rw (detach_joiner j b explicit reply h n, quiet now id h.slot_0 e rows') after,
      rw (told now id h.slot_0 e rows') after,
      refl,
    )
