-- ===== src/Server/Room/Manager.antt =====
-- internal/wxserver/room/manager.go: the hubs of the rooms, which are found by the id of their room,
-- and are numbered here in the order in which they are made.
pub mod Crossed
use mr1v.Base.{
  ℕ, suc, ◌+◌, ◌≤◌, ◌<◌, ◌≡◌, ◌≢◌, refl, Bool, true, false, Option, none, some, List, [], ◌∷◌,
  String, str_eq, eq_iff, ◌==◌, if◌then◌else◌, arith,
}
use mr1v.Js.Dict.{get, put, drop_key, get-put, get-drop_key, str_eq_refl}
use mr1v.Server.Room.{
  Client, Slot, Hub, new_hub, Effect, on_empty, Task, check_empty, slot_of, set_slot,
  connect_client,
}
use mr1v.Server.Room.Steps.{run, both_gone}

-- The map `hubs`, how many hubs were made, and the hubs themselves; one that a connection still
-- holds is there although the map has lost it.
pub record Manager : Type 0 where
  pub hubs : List (String × ℕ)
  pub made : ℕ
  pub hub : ℕ → Hub

abbrev pub new_manager : Manager
new_manager = record { hubs = []; made = 0; hub = λ k. new_hub }

abbrev pub found_or_made : String → Option ℕ → Manager → Manager × ℕ
found_or_made id (some n) m = (m, n)
found_or_made id none m = (record m { hubs = put id m.made m.hubs; made = suc m.made }, m.made)

unfoldable pub get_or_create : String → Manager → Manager × ℕ
unfolding get put
get_or_create id m = found_or_made id (get id m.hubs) m

abbrev pub is_there : Option ℕ → Bool
is_there none = false
is_there (some n) = true

unfoldable pub is_active : String → Manager → Bool
unfolding get
is_active id m = is_there (get id m.hubs)

unfoldable pub get_if_exists : String → Manager → Option ℕ
unfolding get
get_if_exists id m = get id m.hubs

-- The callback `onEmpty`, which asks for the id of the room and not for the hub.
abbrev pub forget : String → Manager → Manager
forget id m = record m { hubs = drop_key id m.hubs }

abbrev pub after_effect : String → Effect → Manager → Manager
after_effect id on_empty m = forget id m
after_effect id _ m = m

abbrev pub after_effects : String → List Effect → Manager → Manager
after_effects id [] m = m
after_effects id (e ∷ es) m = after_effects id es (after_effect id e m)

abbrev pub set_hub : ℕ → Hub → Manager → Manager
set_hub n h m = record m { hub = λ k. if k == n then h else m.hub k }

-- A task of the hub with this number, whose room has this id, and a client that connects to it.
unfoldable pub run_task : String → ℕ → Option (String × String) → Task → Manager → Manager
unfolding drop_key
run_task id n reply t m =
    let o = run reply t (m.hub n) in after_effects id o.done (set_hub n o.hub m)

unfoldable pub connect_to : ℕ → Client → Manager → Manager
unfolding connect_client
connect_to n c m = set_hub n (connect_client c (m.hub n)).hub m

-- Every hub of the map was made.
abbrev pub WellMade : Manager → Type 0
WellMade m = (id : String) (n : ℕ) → get id m.hubs ≡ some n → n < m.made

pub get-forget : (id : String) (m : Manager) → get id (forget id m).hubs ≡ none
get-forget id m = rw (get-drop_key id id m.hubs, str_eq_refl id) refl

found_or_made-WellMade :
    (id : String) (m : Manager) (seen : Option ℕ)
    → WellMade m
    → WellMade (found_or_made id seen m).0
found_or_made-WellMade id m (some n) w = w
found_or_made-WellMade id m none w = λ k n e. ground (arith, get-put id k m.made m.hubs, w k n, e)

pub get_or_create-WellMade :
    (id : String) (m : Manager) → WellMade m → WellMade (get_or_create id m).0
unfolding get_or_create
get_or_create-WellMade id m w = found_or_made-WellMade id m (get id m.hubs) w

pub forget-WellMade : (id : String) (m : Manager) → WellMade m → WellMade (forget id m)
forget-WellMade id m w = λ k n e. ground (arith, get-drop_key id k m.hubs, w k n, e)
