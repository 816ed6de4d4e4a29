-- ===== src/Server/Room/OneMatch.antt =====
-- internal/wxserver/room/hub.go: the flag `matching` and the calls of `createMatch` under way.
use mr1v.Base.{
  ℕ, ◌+◌, ◌≤◌, ◌∙◌, ◌≡◌, refl, ap, Bool, true, false, Option, none, some, List, [], ◌∷◌, ◌++◌,
  String, if◌then◌else◌, arith,
}
use mr1v.Server.Room.{
  Role, creator, joiner, Client, Slot, Event, confirmed, Hub, Message, chat_message, confirm,
  cancel_confirm, close_room, kick_joiner, other_message, Task, connect, read, broadcast,
  create_match, store_matched, match_ready, reset_confirms, check_empty, close_by_creator, detach,
  leave, clear_confirm, notify_score_update, notify_match_ended, Outcome, connect_client, set_slot,
  slot_of, with_confirmed,
}
use mr1v.Server.Room.Steps.{
  avatar_of, handle_close, handle_kick, leave_open, trigger, handle_confirm, handle_cancel_confirm,
  handle_kick_joiner, read_message, detach_client, leave_client, run, Room, begins, runs, connects,
  sends, breaks, room_is_closed, scores, match_ends, Step, Reach, here, next,
}

-- A task that makes a match, or that takes the reply and has not yet cleared the flag.
abbrev pub makes_match : Task → ℕ
makes_match (create_match p0 p1) = 1
makes_match (match_ready id addr) = 1
makes_match reset_confirms = 1
makes_match _ = 0

abbrev pub matches_made : List Task → ℕ
matches_made [] = 0
matches_made (t ∷ ts) = makes_match t + matches_made ts

abbrev pub in_flight : List (List Task) → ℕ
in_flight [] = 0
in_flight (ts ∷ tss) = matches_made ts + in_flight tss

abbrev pub flag : Hub → ℕ
flag h = if h.matching then 1 else 0

matches_made-append :
    (ts us : List Task) → matches_made (ts ++ us) ≡ matches_made ts + matches_made us
matches_made-append [] us = omega arith
matches_made-append (t ∷ ts) us = omega (arith, matches_made-append ts us)

in_flight-append : (ts us : List (List Task)) → in_flight (ts ++ us) ≡ in_flight ts + in_flight us
in_flight-append [] us = omega arith
in_flight-append (t ∷ ts) us = omega (arith, in_flight-append ts us)

-- A task keeps the number of matches under way less the flag.
abbrev Keeps : Task → Hub → Outcome → Type 0
Keeps t h o = matches_made o.rest + flag h ≡ makes_match t + flag o.hub

abbrev KeepsAll : Hub → Outcome → Type 0
KeepsAll h o = matches_made o.rest + flag h ≡ flag o.hub

trigger-KeepsAll : (e : Event) (h : Hub) (c j : Option Slot) → KeepsAll h (trigger e h c j)
trigger-KeepsAll e h none j = ground arith
trigger-KeepsAll e h (some c) none = ground arith
trigger-KeepsAll e h (some c) (some j) = ground arith

flag-set_slot : (r : Role) (s : Option Slot) (h : Hub) → flag (set_slot r s h) ≡ flag h
flag-set_slot creator s h = refl
flag-set_slot joiner s h = refl

connect_client-KeepsAll : (c : Client) (h : Hub) → KeepsAll h (connect_client c h)
unfolding connect_client
connect_client-KeepsAll c h =
    omega (arith, flag-set_slot c.role (some (record { client = c; confirmed = false })) h)

handle_confirm-KeepsAll : (c : Client) (h : Hub) → KeepsAll h (handle_confirm c h)
unfolding handle_confirm
handle_confirm-KeepsAll c h =
    let s = with_confirmed true (slot_of c.role h) in
    let h' = set_slot c.role s h in
    let kept = flag-set_slot c.role s h in
    omega (
      arith,
      kept,
      trigger-KeepsAll (confirmed c.role c.name (avatar_of (slot_of c.role h'))) h' h'.slot_0
          h'.slot_1,
    )

handle_close-KeepsAll : (c : Client) (r : Role) (h : Hub) → KeepsAll h (handle_close c r h)
handle_close-KeepsAll c creator h = omega arith
handle_close-KeepsAll c joiner h = omega arith

handle_kick-KeepsAll : (r : Role) (h : Hub) → KeepsAll h (handle_kick r h)
unfolding handle_kick_joiner
handle_kick-KeepsAll creator h = ground arith
handle_kick-KeepsAll joiner h = omega arith

leave_open-KeepsAll :
    (c : Client) (r : Role) (b : Bool) (s : Option Slot) (h : Hub)
    → KeepsAll h (leave_open c r b s h)
leave_open-KeepsAll c creator true s h = omega arith
leave_open-KeepsAll c creator false s h = omega arith
leave_open-KeepsAll c joiner b s h = omega arith

read_message-KeepsAll : (c : Client) (m : Message) (h : Hub) → KeepsAll h (read_message c m h)
unfolding read_message handle_cancel_confirm handle_kick_joiner
read_message-KeepsAll c (chat_message s) h = ground arith
read_message-KeepsAll c confirm h = handle_confirm-KeepsAll c h
read_message-KeepsAll c cancel_confirm h =
    omega (arith, flag-set_slot c.role (with_confirmed false (slot_of c.role h)) h)
read_message-KeepsAll c close_room h = handle_close-KeepsAll c c.role h
read_message-KeepsAll c kick_joiner h = handle_kick-KeepsAll c.role h
read_message-KeepsAll c other_message h = ground arith

detach_client-KeepsAll : (c : Client) (b : Bool) (h : Hub) → KeepsAll h (detach_client c b h)
unfolding detach_client
detach_client-KeepsAll c b h = ground (arith, flag-set_slot c.role none h)

leave_client-KeepsAll :
    (c : Client) (b : Bool) (s : Option Slot) (h : Hub) → KeepsAll h (leave_client c b s h)
unfolding leave_client
leave_client-KeepsAll c b s h = ground (arith, leave_open-KeepsAll c c.role b s h)

run-Keeps :
    (reply : Option (String × String)) (t : Task) (h : Hub)
    → makes_match t ≤ flag h
    → Keeps t h (run reply t h)
unfolding run
run-Keeps reply (connect c) h k = omega (arith, connect_client-KeepsAll c h)
run-Keeps reply (read c m) h k = omega (arith, read_message-KeepsAll c m h)
run-Keeps reply (broadcast e) h k = omega arith
run-Keeps none (create_match p0 p1) h k = omega arith
run-Keeps (some (id, addr)) (create_match p0 p1) h k = omega arith
run-Keeps reply (store_matched id addr) h k = omega arith
run-Keeps reply (match_ready id addr) h k = ground arith
run-Keeps reply reset_confirms h k = ground arith
run-Keeps reply check_empty h k = omega arith
run-Keeps reply close_by_creator h k = omega arith
run-Keeps reply (detach c b) h k = omega (arith, detach_client-KeepsAll c b h)
run-Keeps reply (leave c b s) h k = omega (arith, leave_client-KeepsAll c b s h)
run-Keeps reply (clear_confirm c s) h k = omega arith
run-Keeps reply (notify_score_update c j) h k = omega arith
run-Keeps reply (notify_match_ended m) h k = omega arith

Step-in_flight :
    {r s : Room} → in_flight r.running ≡ flag r.hub → Step r s → in_flight s.running ≡ flag s.hub
Step-in_flight e (begins _ (connects c)) = omega (arith, e)
Step-in_flight e (begins _ (sends c m)) = omega (arith, e)
Step-in_flight e (begins _ (breaks c)) = omega (arith, e)
Step-in_flight e (begins _ room_is_closed) = omega (arith, e)
Step-in_flight e (begins _ (scores c j)) = omega (arith, e)
Step-in_flight e (begins _ (match_ends m)) = omega (arith, e)
Step-in_flight {r} e (runs reply t ts before after p) =
    let o = run reply t r.hub in
    let was = ap in_flight p ∙ in_flight-append before ((t ∷ ts) ∷ after) in
    let kept = run-Keeps reply t r.hub (omega (arith, e, was)) in
    omega (
      arith,
      e,
      was,
      kept,
      in_flight-append before ((o.rest ++ ts) ∷ after),
      matches_made-append o.rest ts,
    )

-- In every state that a room can reach, however its goroutines take turns, at most one match is
-- being made, and the flag `matching` is on exactly while one is: from the confirmation that
-- started it until its reply, or its failure, has been taken.
pub Reach-one_match : (r : Room) → Reach r → in_flight r.running ≡ (if r.hub.matching then 1 else 0)
Reach-one_match _ here = refl
Reach-one_match s (next {r} reached step) = Step-in_flight (Reach-one_match r reached) step
