-- ===== src/Console/Agents/Page.antt =====
-- pages/AgentsPage.tsx: the page's state, its handlers, and what they ask of the backend. A handler
-- that waits for a reply is one function up to the request and one for each way it ends.
pub mod Save
pub mod Form
pub mod Warning
use mr1v.Base.{
  ℕ, ◌≡◌, refl, Bool, true, false, not, ◌&&◌, ◌||◌, Option, none, some, List, [], ◌∷◌, ◌++◌, String,
  str_eq, if◌then◌else◌, find_first, select,
}
use mr1v.Js.Num.{ℤ, pos, ltb_ℤ, Num, nat, num_lt, num_le}
use mr1v.Js.Text.{Text, codes, text_eq, is_empty}
use mr1v.Js.Parse.{to_number, is_digit, is_digits}
use mr1v.Console.Agents.Ports.{
  PortMode, range, list, PortRange, parse_port_range, serialize_port_range, port_count, or_nil,
}

pub record Agent : Type 0 where
  pub uuid : String
  pub hostname : String
  pub public_ip : String
  pub local_ip : String
  pub cpu : String
  pub mem_mb : ℕ
  pub disk_gb : ℕ
  pub status : String
  pub rehlds_run_max : Num
  pub rehlds_port_range : Text
  pub running_containers : Text
  pub version : Text
  pub created_at : String
  pub updated_at : String
  pub heartbeat_at : String

pub record Page : Type 0 where
  pub agents : List Agent
  pub loading : Bool
  pub edit_target : Option Agent
  pub expanded_keys : List String
  pub port_mode : PortMode
  pub port_start : Option Num
  pub port_end : Option Num
  pub port_list : List Text

-- The values of the form's own fields, as `validateFields` gives them.
pub record FormValues : Type 0 where
  pub status : String
  pub rehlds_run_max : Option Num

abbrev pub initial : Page
initial = record {
  agents = [];
  loading = false;
  edit_target = none;
  expanded_keys = [];
  port_mode = range;
  port_start = none;
  port_end = none;
  port_list = [];
}

-- `fetchAgents` up to its request, GET /agents.
unfoldable pub fetch_agents : Page → Page
fetch_agents p = record p { loading = true }

-- The reply: a body, or `none` for a failed request, which the `finally` still sees.
unfoldable pub fetched_agents : Option (Option (List Agent)) → Page → Page
fetched_agents none p = record p { loading = false }
fetched_agents (some body) p = record p { agents = or_nil body; loading = false }

-- `openEdit`; the last part is what the form's fields are set to.
unfoldable pub open_edit : Agent → Page → Page × FormValues
open_edit a p =
    let parsed = parse_port_range a.rehlds_port_range in
    (
      record p {
        edit_target = some a;
        port_mode = parsed.mode;
        port_start = parsed.start;
        port_end = parsed.end;
        port_list = parsed.ports;
      },
      record { status = a.status; rehlds_run_max = some a.rehlds_run_max },
    )

pub data SaveError : Type 0 where
  too_few_ports : (cnt run_max : Num) → SaveError
  ports_missing end_not_above_start no_port : SaveError
  invalid_port : Text → SaveError

-- The body of PATCH /agents/:uuid.
pub record AgentPatch : Type 0 where
  pub status : String
  pub rehlds_run_max : Option Num
  pub rehlds_port_range : Text

pub data SaveAction : Type 0 where
  nothing form_rejected : SaveAction
  refused : SaveError → SaveAction
  patch : String → AgentPatch → SaveAction

abbrev pub or_zero : Option Num → Num
or_zero none = nat 0
or_zero (some n) = n

-- A tag that the list mode refuses.
unfoldable pub is_invalid_port : Text → Bool
unfolding is_digits to_number
is_invalid_port p =
    not (is_digits p) || num_lt (to_number p) (nat 1) || num_lt (nat 65535) (to_number p)

-- The checks on the ports themselves; `none` means that they pass. An empty text that `find`
-- returns is falsy and passes.
unfoldable pub check_ports : PortMode → Option Num → Option Num → List Text → Option SaveError
check_ports range (some s) (some e) ports = if num_le e s then some end_not_above_start else none
check_ports range _ _ ports = some ports_missing
check_ports list start end [] = some no_port
check_ports list start end (p ∷ ports) = elim (find_first is_invalid_port (p ∷ ports)) [
  | none ↦ none
  | some q ↦ if is_empty q then none else some (invalid_port q)
]

abbrev pub send : Agent → FormValues → Page → SaveAction
send a v p = patch a.uuid (record {
  status = v.status;
  rehlds_run_max = v.rehlds_run_max;
  rehlds_port_range = serialize_port_range p.port_mode p.port_start p.port_end (some p.port_list);
})

-- The checks of `handleSave` in their order: the count first, then the ports.
unfoldable pub first_error : PortMode → Option Num → Option Num → List Text → Num → Option SaveError
unfolding check_ports
first_error mode start end ports run_max =
    let cnt = port_count mode start end (some ports) in
    if num_lt cnt run_max
    then some (too_few_ports cnt run_max)
    else check_ports mode start end ports

abbrev checked : Agent → FormValues → Page → SaveAction
checked a v p =
    elim (first_error p.port_mode p.port_start p.port_end p.port_list (or_zero v.rehlds_run_max)) [
      | some e ↦ refused e
      | none ↦ send a v p
    ]

abbrev save_for : Option Agent → Option FormValues → Page → SaveAction
save_for none validated p = nothing
save_for (some a) none p = form_rejected
save_for (some a) (some v) p = checked a v p

-- `handleSave` up to its request; `validated` is what `form.validateFields` resolves to.
unfoldable pub handle_save : Option FormValues → Page → SaveAction
unfolding first_error
handle_save validated p = save_for p.edit_target validated p

-- `handleSave` after the request: a failed PATCH throws and leaves the dialog open.
unfoldable pub saved : Bool → Page → Page
unfolding fetch_agents
saved ok p = if ok then fetch_agents (record p { edit_target = none }) else p

unfoldable pub close_edit : Page → Page
close_edit p = record p { edit_target = none }

-- The radio group, the two number inputs (`v ?? undefined`) and the tag input of the dialog.
unfoldable pub set_mode : PortMode → Page → Page
set_mode m p = record p { port_mode = m }

unfoldable pub set_start : Option Num → Page → Page
set_start v p = record p { port_start = v }

unfoldable pub set_end : Option Num → Page → Page
set_end v p = record p { port_end = v }

unfoldable pub set_ports : List Text → Page → Page
unfolding is_digits
set_ports vals p = record p { port_list = select is_digits vals }

-- `onExpand` of the table.
unfoldable pub expand : Bool → String → Page → Page
expand expanded uuid p = record p {
  expanded_keys =
      if expanded
      then p.expanded_keys ++ uuid ∷ []
      else select (λ k. not (str_eq k uuid)) p.expanded_keys;
}

-- The warning under the port inputs.
unfoldable pub port_insufficient : Option Num → Page → Bool
port_insufficient watched p =
    let cnt = port_count p.port_mode p.port_start p.port_end (some p.port_list) in
    num_lt (nat 0) cnt && num_lt (nat 0) (or_zero watched) && num_lt cnt (or_zero watched)

abbrev is_one_digit : Text → Bool
is_one_digit [] = false
is_one_digit (c ∷ []) = is_digit c
is_one_digit (c ∷ d ∷ s) = false

abbrev editing_keys : List Text
editing_keys =
    codes "Backspace"
    ∷ codes "Delete"
    ∷ codes "ArrowLeft"
    ∷ codes "ArrowRight"
    ∷ codes "Tab"
    ∷ codes "Enter"
    ∷ []

abbrev has_key : Text → List Text → Bool
has_key key [] = false
has_key key (k ∷ ks) = text_eq k key || has_key key ks

-- `isOnline`, from the whole seconds since the heartbeat that dayjs counts.
unfoldable pub is_online : ℤ → Bool
is_online seconds = ltb_ℤ seconds (pos 30)

-- `numbersOnly`: whether a key press in a number input is dropped.
unfoldable pub numbers_only : Text → Bool
unfolding is_digit
numbers_only key = not (is_one_digit key || has_key key editing_keys)
