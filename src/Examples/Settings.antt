-- ===== src/Examples/Settings.antt =====
-- A setting of the dialog and the match that is placed by it, at a concrete input.
use mathlib.Core.List.Perm
use mr1v.Base.{◌≡◌, refl, true, false, some, List, [], ◌∷◌, arith}
use mr1v.Js.Num.{ℤ, pos, nat}
use mr1v.Js.Text.{codes, split}
use mr1v.Js.Parse.{num_text, decimal}
use mr1v.Console.Agents.Ports.{range, serialize_port_range}
use mr1v.Console.Agents.Page.{Agent, Page, FormValues, patch, handle_save}
use mr1v.Console.Agents.Page.Save.{IsForm, save_iff}
use mr1v.Server.Scheduler.{
  AgentRow, Database, picked, pick_agent_port, is_candidate, consider, scan_range, on_latest,
}
use mr1v.Server.Scheduler.Versions.{compare_versions}
use mr1v.Server.Scheduler.Settings.{decoded, handle_update_agent}
use mr1v.Server.Scheduler.Settings.Saved.{sent_body, IsPlaced, handle_save-pick_agent_port}

abbrev host : Agent
host = record {
  uuid = "a1";
  hostname = "h";
  public_ip = "1.2.3.4";
  local_ip = "10.0.0.1";
  cpu = "8";
  mem_mb = 16000;
  disk_gb = 100;
  status = "disabled";
  rehlds_run_max = nat 1;
  rehlds_port_range = codes "27015-27015";
  running_containers = [];
  version = codes "0.1.8";
  created_at = "";
  updated_at = "";
  heartbeat_at = "";
}

abbrev values : FormValues
values = record { status = "enabled"; rehlds_run_max = some (nat 2) }

abbrev dialog : Page
dialog = record {
  agents = host ∷ [];
  loading = false;
  edit_target = some host;
  expanded_keys = [];
  port_mode = range;
  port_start = some (nat 27015);
  port_end = some (nat 27016);
  port_list = [];
}

dialog-IsForm : IsForm dialog
dialog-IsForm = record { start_natural = tt; end_natural = tt; tags_non_empty = tt }

sent : handle_save (some values) dialog ≡ patch "a1" (sent_body values dialog)
sent = (save_iff host values dialog 2 dialog-IsForm refl refl).1 (omega arith, omega arith)

abbrev old_row : AgentRow
old_row = record {
  uuid = "a1";
  public_ip = "1.2.3.4";
  status = "disabled";
  heartbeat_at = 100;
  rehlds_run_max = 1;
  rehlds_port_range = codes "27015-27015";
  version = codes "0.1.8";
}

-- The agents after the request was served; the first port is busy.
abbrev served : Database
served = record {
  agents =
      some
        (handle_update_agent true "a1" (some (decoded (sent_body values dialog))) (old_row ∷ [])).1;
  busy_ports = λ uuid. some (pos 27015 ∷ []);
}

abbrev unshuffled : List ℤ → List ℤ
unshuffled xs = xs

placed : pick_agent_port unshuffled served 110 0 ≡ picked "a1" "1.2.3.4" (pos 27016)
unfolding pick_agent_port is_candidate consider scan_range on_latest compare_versions split
    handle_update_agent serialize_port_range num_text decimal
placed = refl

handle_save-pick_agent_port_example : IsPlaced served "a1" "enabled" 2 27015 27016 (pos 27016)
handle_save-pick_agent_port_example =
    handle_save-pick_agent_port unshuffled served 110 0 (old_row ∷ []) host values dialog 2 27015
      27016 "1.2.3.4" (pos 27016) (λ xs. Perm.refl xs) (λ uuid. (pos 27015 ∷ [], refl))
      dialog-IsForm refl refl refl refl refl (omega arith) sent refl placed
