-- ===== src/Server/Room/Manager/Crossed.antt =====
-- internal/wxserver/room/manager.go and hub.go: a hub that is found empty while another connection
-- has it already.
use mr1v.Base.{
  ℕ, ◌<◌, ◌≡◌, ◌≢◌, refl, true, false, Option, none, some, List, [], ◌∷◌, String, ◌==◌,
  if◌then◌else◌, arith, ap,
}
use mr1v.Js.Dict.{get, put, get-put, str_eq_refl}
use mr1v.Server.Room.{
  Role, creator, joiner, Client, Slot, Hub, on_empty, check_empty, slot_of, set_slot,
  connect_client,
}
use mr1v.Server.Room.Steps.{run, both_gone}
use mr1v.Server.Room.Manager.{
  Manager, after_effects, found_or_made, get_or_create, is_active, forget, set_hub, run_task,
  connect_to, WellMade, get-forget,
}
use mr1v.Server.Rooms.{Room, delete_room, sweep}

abbrev pub IsEmpty : Hub → Type 0
IsEmpty h = (h.slot_0 ≡ none) × (h.slot_1 ≡ none)

check_empty-forget :
    (id : String) (n : ℕ) (reply : Option (String × String)) (m : Manager)
    → IsEmpty (m.hub n)
    → run_task id n reply check_empty m ≡ forget id (set_hub n (m.hub n) m)
unfolding run_task run
check_empty-forget id n reply m (a, b) =
    let gone : (if both_gone (m.hub n).slot_0 (m.hub n).slot_1 then on_empty ∷ [] else [])
        ≡ on_empty ∷ [] =
      rw (a, b) refl in
    ap (λ es. after_effects id es (set_hub n (m.hub n) m)) gone

get_or_create-found :
    (id : String) (n : ℕ) (m : Manager) → get id m.hubs ≡ some n → get_or_create id m ≡ (m, n)
unfolding get_or_create
get_or_create-found id n m e = ap (λ t. found_or_made id t m) e

get_or_create-made :
    (id : String) (m : Manager)
    → get id m.hubs ≡ none
    → get_or_create id m ≡ found_or_made id none m
unfolding get_or_create
get_or_create-made id m e = ap (λ t. found_or_made id t m) e

slot_of-set_slot : (r : Role) (s : Option Slot) (h : Hub) → slot_of r (set_slot r s h) ≡ s
slot_of-set_slot creator s h = refl
slot_of-set_slot joiner s h = refl

connected :
    (n : ℕ) (c : Client) (m : Manager)
    → slot_of c.role ((connect_to n c m).hub n) ≡ some (record { client = c; confirmed = false })
unfolding connect_to connect_client
connected n c m =
    let own : (n == n) ≡ true = ground arith in
    rw own (slot_of-set_slot c.role (some (record { client = c; confirmed = false })) (m.hub n))

put_found : (id : String) (n : ℕ) (d : List (String × ℕ)) → get id (put id n d) ≡ some n
put_found id n d = rw (get-put id id n d, str_eq_refl id) refl

-- In the order in which they should run.
asked_after :
    (id : String) (c : Client) (m : Manager)
    → get id m.hubs ≡ none
    → let asked = get_or_create id m in
      let joined = connect_to asked.1 c asked.0 in
      ((get_or_create id joined).1 ≡ asked.1) × (is_active id joined ≡ true)
unfolding connect_to is_active
asked_after id c m e =
    let found = put_found id m.made m.hubs in
    rw (get_or_create-made id m e) (
      ap (λ (t : Manager × ℕ). t.1)
          (get_or_create-found id m.made (connect_to m.made c (found_or_made id none m).0) found),
      rw found refl,
    )

-- In the other order, after the hub has been forgotten.
asked_before :
    (id : String) (n now : ℕ) (c : Client) (m : Manager) (rows : List Room)
    → n < m.made
    → get id m.hubs ≡ none
    → let lost = connect_to n c m in
      (slot_of c.role (lost.hub n) ≡ some (record { client = c; confirmed = false }))
      × ((get_or_create id lost).1 ≢ n)
      × (sweep (λ k. is_active k lost) now (id ∷ []) rows ≡ delete_room id "timeout" now rows)
unfolding connect_to is_active sweep
asked_before id n now c m rows older e = (
  connected n c m,
  rw (get_or_create-made id (connect_to n c m) e) (λ same. omega (arith, older, same)),
  rw e refl,
)

-- The last client of a room has left its hub, and the hub is about to be found empty. A player who
-- asks for the hub after that, and connects, is found by the next one who asks. One who asks
-- before it and connects after it is alone: the room counts as one without a connection, so that a
-- round of the sweep which has its id deletes it, and the next player is given another hub.
pub get_or_create-check_empty :
    (id : String) (n now : ℕ) (reply : Option (String × String)) (c : Client) (m : Manager)
    (rows : List Room)
    → WellMade m
    → get id m.hubs ≡ some n
    → IsEmpty (m.hub n)
    → let checked = run_task id n reply check_empty m in
      let asked = get_or_create id checked in
      let joined = connect_to asked.1 c asked.0 in
      let early = get_or_create id m in
      let late = run_task id n reply check_empty early.0 in
      let lost = connect_to early.1 c late in
      ((get_or_create id joined).1 ≡ asked.1)
      × (is_active id joined ≡ true)
      × (slot_of c.role (lost.hub early.1) ≡ some (record { client = c; confirmed = false }))
      × ((get_or_create id lost).1 ≢ early.1)
      × (sweep (λ k. is_active k lost) now (id ∷ []) rows ≡ delete_room id "timeout" now rows)
get_or_create-check_empty id n now reply c m rows made there empty =
    let m' = forget id (set_hub n (m.hub n) m) in
    let (same, found) = asked_after id c m' (get-forget id (set_hub n (m.hub n) m)) in
    let (alone, apart, deleted) =
      asked_before id n now c m' rows (made id n there) (get-forget id (set_hub n (m.hub n) m)) in
    rw (get_or_create-found id n m there, check_empty-forget id n reply m empty)
      (same, found, alone, apart, deleted)
