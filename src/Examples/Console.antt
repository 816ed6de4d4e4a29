-- ===== src/Examples/Console.antt =====
-- The agents' page and the shell at concrete inputs.
use mr1v.Base.{◌≡◌, ◌↔◌, refl, false, some, List, [], ◌∷◌, arith}
use mr1v.Js.Num.{ℤ, pos, nat}
use mr1v.Js.Text.{Text, codes}
use mr1v.Console.Agents.Ports.{range, serialize_port_range}
use mr1v.Console.Agents.Page.{Agent, Page, FormValues, initial, send, handle_save, open_edit}
use mr1v.Console.Agents.Page.Save.{Saveable, IsForm, save_iff, shown, setting, open-save}

abbrev host : Text → Text → Agent
host ports version = record {
  uuid = "a1";
  hostname = "h";
  public_ip = "1.2.3.4";
  local_ip = "10.0.0.1";
  cpu = "8";
  mem_mb = 16000;
  disk_gb = 100;
  status = "enabled";
  rehlds_run_max = nat 4;
  rehlds_port_range = ports;
  running_containers = [];
  version = version;
  created_at = "";
  updated_at = "";
  heartbeat_at = "";
}

abbrev ports_text : Text
ports_text = codes "27015-27020"

abbrev form : FormValues
form = record { status = "enabled"; rehlds_run_max = some (nat 4) }

-- The dialog of an agent, with the range 27015 to 27020.
abbrev dialog : Page
dialog = record {
  agents = [];
  loading = false;
  edit_target = some (host ports_text (codes "0.1.8"));
  expanded_keys = [];
  port_mode = range;
  port_start = some (nat 27015);
  port_end = some (nat 27020);
  port_list = [];
}

dialog-IsForm : IsForm dialog
dialog-IsForm = record { start_natural = tt; end_natural = tt; tags_non_empty = tt }

save_iff_example :
    (handle_save (some form) dialog ≡ send (host ports_text (codes "0.1.8")) form dialog)
    ↔ Saveable 4 range (some (nat 27015)) (some (nat 27020)) []
save_iff_example = save_iff (host ports_text (codes "0.1.8")) form dialog 4 dialog-IsForm refl refl

dialog_sent : handle_save (some form) dialog ≡ send (host ports_text (codes "0.1.8")) form dialog
dialog_sent = save_iff_example.1 (omega arith, omega arith)

open-save_example :
    shown
      (open_edit
        (host (serialize_port_range range (some (nat 27015)) (some (nat 27020)) (some [])) [])
        initial).0
    ≡ setting range (some (nat 27015)) (some (nat 27020)) []
open-save_example =
    open-save (host ports_text (codes "0.1.8"))
      (host (serialize_port_range range (some (nat 27015)) (some (nat 27020)) (some [])) []) form
      dialog initial 4 dialog-IsForm refl refl dialog_sent refl

abbrev no_locale : Text → Text → ℤ
no_locale a b = pos 0

abbrev fleet : List Agent
fleet = host [] (codes "0.1.8") ∷ host [] [] ∷ host [] (codes "0.1.10") ∷ []
