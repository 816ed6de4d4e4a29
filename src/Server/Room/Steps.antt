-- ===== src/Server/Room/Steps.antt =====
-- internal/wxserver/room/hub.go: what each task does, and the steps of a room.
use mr1v.Base.{
  ℕ, zero, suc, ◌≡◌, Bool, true, false, not, ◌&&◌, Option, none, some, List, [], ◌∷◌, ◌++◌, String,
  ◌==◌, if◌then◌else◌,
}
use mr1v.Server.Room.{
  Role, creator, joiner, Client, Slot, Chat, Event, matched, chat, confirmed, cancelled,
  player_left, score_update, room_closed, kicked, error, match_ended, Hub, new_hub, Effect, close,
  delete_room, on_empty, leave_room, set_room_matched, post_match, Message, chat_message, confirm,
  cancel_confirm, close_room, kick_joiner, other_message, Task, connect, read, broadcast,
  create_match, store_matched, match_ready, reset_confirms, check_empty, close_by_creator, detach,
  leave, clear_confirm, notify_score_update, notify_match_ended, Outcome, outcome, slot_of, other,
  set_slot, with_confirmed, send_to, dismiss, connect_client,
}

abbrev pub avatar_of : Option Slot → String
avatar_of none = ""
avatar_of (some s) = s.client.avatar

abbrev pub trigger : Event → Hub → Option Slot → Option Slot → Outcome
trigger e h none j = outcome h (broadcast e ∷ []) []
trigger e h (some c) none = outcome h (broadcast e ∷ []) []
trigger e h (some c) (some j) =
    if c.confirmed && j.confirmed && not h.matching
    then outcome (record h { matching = true })
        (broadcast e ∷ create_match c.client.steam_id j.client.steam_id ∷ []) []
    else outcome h (broadcast e ∷ []) []

-- `handleConfirm`: the slot is the one of the role, whoever is in it now.
unfoldable pub handle_confirm : Client → Hub → Outcome
handle_confirm c h =
    let h' = set_slot c.role (with_confirmed true (slot_of c.role h)) h in
    trigger (confirmed c.role c.name (avatar_of (slot_of c.role h'))) h' h'.slot_0 h'.slot_1

unfoldable pub handle_cancel_confirm : Client → Hub → Outcome
handle_cancel_confirm c h =
    outcome (set_slot c.role (with_confirmed false (slot_of c.role h)) h)
      (broadcast (cancelled c.role c.name) ∷ []) []

abbrev pub kick : Hub → Option Slot → List Effect
kick h none = []
kick h (some j) =
    leave_room j.client.openid ∷ dismiss (some j) kicked
    ++ send_to h.slot_0 (player_left joiner j.client.name)

unfoldable pub handle_kick_joiner : Hub → Outcome
handle_kick_joiner h =
    if h.is_matched
    then outcome h [] []
    else outcome (record h { slot_0 = with_confirmed false h.slot_0; slot_1 = none }) []
        (kick h h.slot_1)

-- One round of the read loop.
abbrev pub handle_close : Client → Role → Hub → Outcome
handle_close c creator h = outcome h (detach c true ∷ []) []
handle_close c joiner h = outcome h [] []

abbrev pub handle_kick : Role → Hub → Outcome
handle_kick creator h = handle_kick_joiner h
handle_kick joiner h = outcome h [] []

abbrev pub chat_of : Client → String → Chat
chat_of c s = record { role = c.role; name = c.name; content = s }

unfoldable pub read_message : Client → Message → Hub → Outcome
unfolding handle_confirm handle_cancel_confirm handle_kick_joiner
read_message c (chat_message s) h =
    outcome (record h { chats = h.chats ++ (chat_of c s ∷ []) })
      (broadcast (chat (chat_of c s)) ∷ []) []
read_message c confirm h = handle_confirm c h
read_message c cancel_confirm h = handle_cancel_confirm c h
read_message c close_room h = handle_close c c.role h
read_message c kick_joiner h = handle_kick c.role h
read_message c other_message h = outcome h [] []

-- After the read loop: the slot is emptied, unless another connection has it.
abbrev pub is_mine : Client → Option Slot → Bool
is_mine c none = false
is_mine c (some s) = s.client.conn == c.conn

unfoldable pub detach_client : Client → Bool → Hub → Outcome
detach_client c explicit h =
    if is_mine c (slot_of c.role h)
    then outcome (set_slot c.role none h) (leave c explicit (slot_of (other c.role) h) ∷ []) []
    else outcome h [] []

abbrev pub leave_open : Client → Role → Bool → Option Slot → Hub → Outcome
leave_open c creator true remaining h =
    outcome h (check_empty ∷ []) (delete_room ∷ dismiss remaining room_closed)
leave_open c creator false remaining h =
    outcome h (check_empty ∷ []) (send_to remaining (player_left creator c.name))
leave_open c joiner explicit remaining h =
    outcome h (clear_confirm c remaining ∷ []) (leave_room c.openid ∷ [])

unfoldable pub leave_client : Client → Bool → Option Slot → Hub → Outcome
leave_client c explicit remaining h =
    if h.is_matched
    then outcome h (check_empty ∷ []) []
    else leave_open c c.role explicit remaining h

abbrev pub both_gone : Option Slot → Option Slot → Bool
both_gone none none = true
both_gone none (some j) = false
both_gone (some c) j = false

-- `triggerMatch` after `createMatch`: its reply is the match and the address, or an error.
abbrev pub created : Option (String × String) → Hub → List Effect → Outcome
created none h es = outcome h (broadcast error ∷ reset_confirms ∷ []) es
created (some (id, addr)) h es =
    outcome h (match_ready id addr ∷ store_matched id addr ∷ broadcast (matched addr id) ∷ []) es

abbrev pub hang_up : Option Slot → List Effect
hang_up none = []
hang_up (some s) = close s.client.conn ∷ []

-- A task; `reply` is what `createMatch` returns.
unfoldable pub run : Option (String × String) → Task → Hub → Outcome
unfolding connect_client read_message detach_client leave_client
run reply (connect c) h = connect_client c h
run reply (read c m) h = read_message c m h
run reply (broadcast e) h = outcome h [] (send_to h.slot_0 e ++ send_to h.slot_1 e)
run reply (create_match p0 p1) h = created reply h (post_match p0 p1 ∷ [])
run reply (match_ready id addr) h =
    outcome (record h { is_matched = true; matching = false; match_id = id; server_addr = addr }) []
      []
run reply (store_matched id addr) h = outcome h [] (set_room_matched id addr ∷ [])
run reply reset_confirms h =
    outcome
      (record h {
        slot_0 = with_confirmed false h.slot_0;
        slot_1 = with_confirmed false h.slot_1;
        matching = false;
      })
      [] []
run reply (detach c explicit) h = detach_client c explicit h
run reply (leave c explicit remaining) h = leave_client c explicit remaining h
run reply (clear_confirm c remaining) h =
    outcome (record h { slot_0 = with_confirmed false h.slot_0 }) (check_empty ∷ [])
      (send_to remaining (player_left joiner c.name))
run reply check_empty h = outcome h [] (if both_gone h.slot_0 h.slot_1 then on_empty ∷ [] else [])
run reply close_by_creator h =
    outcome (record h { slot_0 = none; slot_1 = none }) []
      (dismiss h.slot_1 room_closed ++ hang_up h.slot_0 ++ (on_empty ∷ []))
run reply (notify_score_update c j) h =
    outcome (record h { score_creator = c; score_joiner = j }) (broadcast (score_update c j) ∷ [])
      []
run reply (notify_match_ended m) h =
    outcome (record h { slot_0 = none; slot_1 = none }) []
      (dismiss h.slot_0 (match_ended m) ++ dismiss h.slot_1 (match_ended m) ++ (on_empty ∷ []))

-- The tasks of one goroutine with no other in between; `none` when the fuel is used up.
abbrev pub then_done : List Effect → Option (Hub × List Effect) → Option (Hub × List Effect)
then_done es none = none
then_done es (some (h, fs)) = some (h, es ++ fs)

unfoldable pub alone : ℕ → Option (String × String) → List Task → Hub → Option (Hub × List Effect)
unfolding run
alone zero reply ts h = none
alone (suc n) reply [] h = some (h, [])
alone (suc n) reply (t ∷ ts) h =
    let o = run reply t h in then_done o.done (alone n reply (o.rest ++ ts) o.hub)

-- A room: its hub, and for every goroutine the tasks that it has left. Any number of goroutines may
-- begin at any time, and every step runs the next task of one of them.
pub record Room : Type 0 where
  pub hub : Hub
  pub running : List (List Task)

abbrev pub start : Room
start = record { hub = new_hub; running = [] }

-- What begins from outside: a connection, a message, the end of a connection, and the calls of the
-- REST handlers.
pub data Begins : Task → Type 0 where
  connects : (c : Client) → Begins (connect c)
  sends : (c : Client) (m : Message) → Begins (read c m)
  breaks : (c : Client) → Begins (detach c false)
  room_is_closed : Begins close_by_creator
  scores : (c j : ℕ) → Begins (notify_score_update c j)
  match_ends : (m : String) → Begins (notify_match_ended m)

abbrev pub running_on : Outcome → List Task → List (List Task) → List (List Task) → Room
running_on o ts before after = record { hub = o.hub; running = before ++ ((o.rest ++ ts) ∷ after) }

pub data Step (r : Room) : Room → Type 0 where
  begins : (t : Task) → Begins t → Step r (record r { running = (t ∷ []) ∷ r.running })
  runs :
      (reply : Option (String × String)) (t : Task) (ts : List Task)
      (before after : List (List Task))
      → r.running ≡ before ++ ((t ∷ ts) ∷ after)
      → Step r (running_on (run reply t r.hub) ts before after)

pub data Reach : Room → Type 0 where
  here : Reach start
  next : {r s : Room} → Reach r → Step r s → Reach s
