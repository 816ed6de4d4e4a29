-- ===== src/Server/Room/Ends.antt =====
-- internal/wxserver/room/hub.go: a goroutine's work on one message, connection or call ends.
use mr1v.Base.{
  ℕ, zero, suc, ◌+◌, ◌≤◌, ◌<◌, ◌≡◌, refl, Bool, true, false, Option, none, some, List, [], ◌∷◌,
  ◌++◌, String, arith,
}
use mr1v.Server.Room.{
  Role, creator, joiner, Client, Slot, Event, confirmed, Hub, Effect, Message, chat_message,
  confirm, cancel_confirm, close_room, kick_joiner, other_message, Task, connect, read, broadcast,
  create_match, store_matched, match_ready, reset_confirms, check_empty, close_by_creator, detach,
  leave, clear_confirm, notify_score_update, notify_match_ended, connect_client, set_slot, slot_of,
  with_confirmed,
}
use mr1v.Server.Room.Steps.{
  trigger, avatar_of, handle_confirm, handle_cancel_confirm, handle_kick_joiner, handle_close,
  handle_kick, read_message, detach_client, leave_open, leave_client, run, then_done, alone,
}

-- How many tasks a task comes to at most, itself included.
abbrev pub cost : Task → ℕ
cost (connect c) = 1
cost (read c m) = 6
cost (broadcast e) = 1
cost (create_match p0 p1) = 4
cost (store_matched id addr) = 1
cost (match_ready id addr) = 1
cost reset_confirms = 1
cost check_empty = 1
cost close_by_creator = 1
cost (detach c b) = 4
cost (leave c b s) = 3
cost (clear_confirm c s) = 2
cost (notify_score_update c j) = 2
cost (notify_match_ended m) = 1

abbrev pub costs : List Task → ℕ
costs [] = 0
costs (t ∷ ts) = cost t + costs ts

costs-append : (ts us : List Task) → costs (ts ++ us) ≡ costs ts + costs us
costs-append [] us = omega arith
costs-append (t ∷ ts) us = omega (arith, costs-append ts us)

cost_le : (t : Task) (n : ℕ) → costs (t ∷ []) < 7 + n
cost_le t n = ground arith

trigger-costs : (e : Event) (h : Hub) (c j : Option Slot) → costs (trigger e h c j).rest ≤ 5
trigger-costs e h none j = omega arith
trigger-costs e h (some c) none = omega arith
trigger-costs e h (some c) (some j) = ground arith

handle_confirm-costs : (c : Client) (h : Hub) → costs (handle_confirm c h).rest ≤ 5
unfolding handle_confirm
handle_confirm-costs c h =
    let h' = set_slot c.role (with_confirmed true (slot_of c.role h)) h in
    trigger-costs (confirmed c.role c.name (avatar_of (slot_of c.role h'))) h' h'.slot_0 h'.slot_1

handle_close-costs : (c : Client) (r : Role) (h : Hub) → costs (handle_close c r h).rest ≤ 5
handle_close-costs c creator h = omega arith
handle_close-costs c joiner h = omega arith

handle_kick-costs : (r : Role) (h : Hub) → costs (handle_kick r h).rest ≤ 5
unfolding handle_kick_joiner
handle_kick-costs creator h = ground arith
handle_kick-costs joiner h = omega arith

read_message-costs : (c : Client) (m : Message) (h : Hub) → costs (read_message c m h).rest ≤ 5
unfolding read_message handle_cancel_confirm
read_message-costs c (chat_message s) h = omega arith
read_message-costs c confirm h = handle_confirm-costs c h
read_message-costs c cancel_confirm h = omega arith
read_message-costs c close_room h = handle_close-costs c c.role h
read_message-costs c kick_joiner h = handle_kick-costs c.role h
read_message-costs c other_message h = omega arith

detach_client-costs : (c : Client) (b : Bool) (h : Hub) → costs (detach_client c b h).rest ≤ 3
unfolding detach_client
detach_client-costs c b h = ground arith

leave_open-costs :
    (c : Client) (r : Role) (b : Bool) (s : Option Slot) (h : Hub)
    → costs (leave_open c r b s h).rest ≤ 2
leave_open-costs c creator true s h = omega arith
leave_open-costs c creator false s h = omega arith
leave_open-costs c joiner b s h = omega arith

leave_client-costs :
    (c : Client) (b : Bool) (s : Option Slot) (h : Hub) → costs (leave_client c b s h).rest ≤ 2
unfolding leave_client
leave_client-costs c b s h = ground (arith, leave_open-costs c c.role b s h)

run-costs :
    (reply : Option (String × String)) (t : Task) (h : Hub) → costs (run reply t h).rest < cost t
unfolding run connect_client
run-costs reply (connect c) h = omega arith
run-costs reply (read c m) h = omega (arith, read_message-costs c m h)
run-costs reply (broadcast e) h = omega arith
run-costs none (create_match p0 p1) h = omega arith
run-costs (some (id, addr)) (create_match p0 p1) h = omega arith
run-costs reply (store_matched id addr) h = omega arith
run-costs reply (match_ready id addr) h = omega arith
run-costs reply reset_confirms h = omega arith
run-costs reply check_empty h = omega arith
run-costs reply close_by_creator h = omega arith
run-costs reply (detach c b) h = omega (arith, detach_client-costs c b h)
run-costs reply (leave c b s) h = omega (arith, leave_client-costs c b s h)
run-costs reply (clear_confirm c s) h = omega arith
run-costs reply (notify_score_update c j) h = omega arith
run-costs reply (notify_match_ended m) h = omega arith

abbrev pub Finishes : Option (Hub × List Effect) → Type 0
Finishes o = (r : Hub × List Effect) × (o ≡ some r)

then_done-Finishes :
    (es : List Effect) (o : Option (Hub × List Effect)) → Finishes o → Finishes (then_done es o)
then_done-Finishes es none (r, e) = absurd (ground (arith, e))
then_done-Finishes es (some (h, fs)) f = ((h, es ++ fs), refl)

alone-costs :
    (n : ℕ) (reply : Option (String × String)) (ts : List Task) (h : Hub)
    → costs ts < n
    → Finishes (alone n reply ts h)
unfolding alone
alone-costs zero reply ts h k = absurd (omega arith)
alone-costs (suc n) reply [] h k = ((h, []), refl)
alone-costs (suc n) reply (t ∷ ts) h k =
    let o = run reply t h in
    then_done-Finishes o.done (alone n reply (o.rest ++ ts) o.hub) (
      alone-costs n reply (o.rest ++ ts) o.hub
        (omega (arith, costs-append o.rest ts, run-costs reply t h)))

-- Whatever a goroutine has to do, one message, the end of a connection or a call from outside, comes
-- to six tasks at most: run alone on more fuel than that, it ends with a result.
pub alone-Finishes :
    (reply : Option (String × String)) (t : Task) (h : Hub) (n : ℕ)
    → Finishes (alone (7 + n) reply (t ∷ []) h)
alone-Finishes reply t h n = alone-costs (7 + n) reply (t ∷ []) h (cost_le t n)
