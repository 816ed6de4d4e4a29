-- ===== src/Examples/Server.antt =====
-- The services at concrete inputs.
use mathlib.Core.List.Perm
use mr1v.Base.{◌≡◌, refl, none, some, List, [], ◌∷◌, arith}
use mr1v.Js.Num.{ℤ, pos}
use mr1v.Js.Text.{Text, codes, split}
use mr1v.Console.Agents.Ports.{list, serialize_port_range}
use mr1v.Console.Agents.Versions
use mr1v.Server.Scheduler.{
  AgentRow, Database, picked, pick_agent_port, is_candidate, consider, skipped, scan_range,
  on_latest,
}
use mr1v.Server.Scheduler.Choice.Sound.{IsChoice, pick_agent_port-IsChoice}
use mr1v.Server.Scheduler.Dialog.{saved_list-skipped}
use mr1v.Server.Scheduler.Versions.{compare_versions}
use mr1v.Server.Scheduler.Versions.Agree.{compare_versions-agree}

abbrev no_locale : Text → Text → ℤ
no_locale a b = pos 0

compare_versions-agree_example :
    compare_versions (codes "0.1.10") (codes "0.1.8")
    ≡ Versions.compare_versions no_locale (codes "0.1.10") (codes "0.1.8")
unfolding split
compare_versions-agree_example =
    compare_versions-agree no_locale (codes "0.1.10") (codes "0.1.8")
      (
        (cc, omega arith, omega arith),
        ((cc, omega arith, omega arith), ((cc, omega arith, omega arith), tt)),
      )
      (
        (cc, omega arith, omega arith),
        ((cc, omega arith, omega arith), ((cc, omega arith, omega arith), tt)),
      )

abbrev row : Text → AgentRow
row ports = record {
  uuid = "a1";
  public_ip = "1.2.3.4";
  status = "enabled";
  heartbeat_at = 100;
  rehlds_run_max = 2;
  rehlds_port_range = ports;
  version = codes "0.1.8";
}

-- One agent with two ports, the first of which is busy.
abbrev one_agent : Database
one_agent = record {
  agents = some (row (codes "27015-27016") ∷ []);
  busy_ports = λ uuid. some (pos 27015 ∷ []);
}

saved_list-skipped_example :
    consider one_agent (row (serialize_port_range list none none (some (codes "27015" ∷ []))))
    ≡ skipped
saved_list-skipped_example =
    saved_list-skipped 1 none none (codes "27015" ∷ []) one_agent
      (row (serialize_port_range list none none (some (codes "27015" ∷ []))))
      (cc, (((cc, omega arith), omega arith, omega arith), tt), omega arith) refl

abbrev unshuffled : List ℤ → List ℤ
unshuffled xs = xs

one_pick : pick_agent_port unshuffled one_agent 110 0 ≡ picked "a1" "1.2.3.4" (pos 27016)
unfolding pick_agent_port is_candidate consider scan_range on_latest compare_versions split
one_pick = refl

pick_agent_port-IsChoice_example :
    IsChoice one_agent 110 30 (row (codes "27015-27016") ∷ []) "a1" "1.2.3.4" (pos 27016)
pick_agent_port-IsChoice_example =
    pick_agent_port-IsChoice unshuffled one_agent (λ xs. Perm.refl xs)
      (λ uuid. (pos 27015 ∷ [], refl)) 110 0 (row (codes "27015-27016") ∷ []) "a1" "1.2.3.4"
      (pos 27016) refl one_pick
