-- ===== src/Examples/Manager.antt =====
-- The manager of hubs with one room.
use mr1v.Base.{◌≡◌, ◌≢◌, refl, true, false, none, some, none≢some, List, [], ◌∷◌}
use mr1v.Js.Text.{codes}
use mr1v.Js.Dict.{get}
use mr1v.Server.Room.{Client, joiner, check_empty, slot_of}
use mr1v.Server.Room.Manager.{
  Manager, new_manager, get_or_create, is_active, run_task, connect_to, WellMade,
  get_or_create-WellMade,
}
use mr1v.Server.Room.Manager.Crossed.{get_or_create-check_empty}
use mr1v.Server.Rooms.{Room, new_room, delete_room, sweep}

abbrev guest : Client
guest = record {
  conn = 7;
  openid = "ben";
  name = "Ben";
  avatar = "";
  steam_id = "STEAM_0:0:2";
  role = joiner;
}

-- The creator has connected to the hub and left it.
abbrev one_room : Manager
one_room = (get_or_create "r1" new_manager).0

one_room-WellMade : WellMade one_room
unfolding get
one_room-WellMade = get_or_create-WellMade "r1" new_manager (λ id n e. absurd (none≢some e))

abbrev rows : List Room
rows = new_room "r1" (codes "duel") "anna" "" "rifle" [] false 0 ∷ []

get_or_create-check_empty_example :
    let checked = run_task "r1" 0 none check_empty one_room in
    let asked = get_or_create "r1" checked in
    let joined = connect_to asked.1 guest asked.0 in
    let early = get_or_create "r1" one_room in
    let late = run_task "r1" 0 none check_empty early.0 in
    let lost = connect_to early.1 guest late in
    ((get_or_create "r1" joined).1 ≡ asked.1)
    × (is_active "r1" joined ≡ true)
    × (slot_of joiner (lost.hub early.1) ≡ some (record { client = guest; confirmed = false }))
    × ((get_or_create "r1" lost).1 ≢ early.1)
    × (sweep (λ k. is_active k lost) 500 ("r1" ∷ []) rows ≡ delete_room "r1" "timeout" 500 rows)
unfolding get_or_create
get_or_create-check_empty_example =
    get_or_create-check_empty "r1" 0 500 none guest one_room rows one_room-WellMade refl
      (refl, refl)
