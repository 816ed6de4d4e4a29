-- ===== src/Server/Scheduler/Settings.antt =====
-- internal/backend/backend.go, handleUpdateAgent: the settings that the console's dialog sends. `Saved`
-- follows them to the choice of a port.
pub mod Saved
use mr1v.Base.{
  ℕ, Bool, true, false, not, ◌||◌, Option, none, some, List, String, str_eq, if◌then◌else◌,
}
use mr1v.Js.Num.{Num, nan, int, pos, negsuc}
use mr1v.Js.Text.{Text}
use mr1v.Console.Agents.Page.{AgentPatch}
use mr1v.Server.Rooms.{update_where}
use mr1v.Server.Scheduler.{AgentRow}

-- The fields of PATCH /agents/:uuid, each `none` where it is not given or null.
pub record AgentUpdate : Type 0 where
  pub status : Option String
  pub rehlds_run_max : Option ℕ
  pub rehlds_port_range : Option Text

-- How JSON carries a number: NaN as null. The model's rows hold natural numbers; the dialog's input
-- takes none below 0.
abbrev pub sent_number : Option Num → Option ℕ
sent_number none = none
sent_number (some nan) = none
sent_number (some (int (pos n))) = some n
sent_number (some (int (negsuc n))) = none

abbrev pub decoded : AgentPatch → AgentUpdate
decoded b = record {
  status = some b.status;
  rehlds_run_max = sent_number b.rehlds_run_max;
  rehlds_port_range = some b.rehlds_port_range;
}

abbrev pub or_old {ℓ} : {A : Type ℓ} → Option A → A → A
or_old none old = old
or_old (some new) old = new

abbrev pub has_value {ℓ} : {A : Type ℓ} → Option A → Bool
has_value none = false
has_value (some a) = true

abbrev pub updated_agent : AgentUpdate → AgentRow → AgentRow
updated_agent u a = record a {
  status = or_old u.status a.status;
  rehlds_run_max = or_old u.rehlds_run_max a.rehlds_run_max;
  rehlds_port_range = or_old u.rehlds_port_range a.rehlds_port_range;
}

pub data Reply : Type 0 where
  done : Reply
  failed : ℕ → Reply

abbrev pub is_agent : String → AgentRow → Bool
is_agent uuid a = str_eq a.uuid uuid

-- `handleUpdateAgent`; `none` is a body that does not parse. A uuid that is no agent's is answered as
-- done too.
unfoldable pub handle_update_agent :
    (ok : Bool) (uuid : String) → Option AgentUpdate → List AgentRow → Reply × List AgentRow
handle_update_agent ok uuid none rows = (failed 400, rows)
handle_update_agent ok uuid (some u) rows =
    if not (has_value u.status || has_value u.rehlds_run_max || has_value u.rehlds_port_range)
    then (failed 400, rows)
    else if ok
    then (done, update_where (is_agent uuid) (updated_agent u) rows)
    else (failed 500, rows)
