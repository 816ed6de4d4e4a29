-- ===== src/Console/Agents/Table.antt =====
-- pages/AgentsPage.tsx: the table of agents and the dialog that edits one.
pub mod Containers
use mr1v.Base.{
  Bool, true, false, not, Option, none, some, List, [], ◌∷◌, ◌++◌, String, str_eq, if◌then◌else◌,
  length,
}
use mr1v.Js.Num.{ℤ, Num, nat, num_lt}
use mr1v.Js.Text.{Text, codes}
use mr1v.Js.Parse.{decimal, num_text}
use mr1v.Console.View.{
  Piece, words, faint, titled, tag, button, Column, plain, table, Item, item, Drawn, is_some,
}
use mr1v.Console.Agents.Ports.{PortMode, range, list, port_count}
use mr1v.Console.Agents.Page.{
  Agent, Page, FormValues, SaveAction, nothing, or_zero, fetch_agents, open_edit, close_edit,
  handle_save, is_online, port_insufficient,
}
use mr1v.Console.Agents.Versions.{latest_version, VersionTag, unknown, current, stale, version_tag}
use mr1v.Console.Agents.Containers.{LoadTag, red, blue, grey, load_tag}

pub data Event : Type 0 where
  refresh_clicked save_clicked edit_cancelled : Event
  edit_clicked : Agent → Event

-- A click, and what a save does; `validated` is what the form's `validateFields` resolves to.
unfoldable pub click : Option FormValues → Event → Page → Page × SaveAction
unfolding fetch_agents open_edit close_edit handle_save
click validated refresh_clicked p = (fetch_agents p, nothing)
click validated save_clicked p = (p, handle_save validated p)
click validated edit_cancelled p = (close_edit p, nothing)
click validated (edit_clicked a) p = ((open_edit a p).0, nothing)

abbrev pub online_piece : Bool → Piece Event
online_piece true = tag "green" (codes "在线")
online_piece false = tag "default" (codes "离线")

abbrev pub status_piece : String → Piece Event
status_piece v = if str_eq v "enabled" then tag "blue" (codes "可调度") else tag "red" (codes "禁用")

abbrev pub version_piece : VersionTag → Piece Event
version_piece unknown = faint (codes "未知")
version_piece (current v) = tag "default" v
version_piece (stale v) = tag "red" (v ++ codes " (待升级)")

abbrev pub load_piece : LoadTag → Piece Event
load_piece (red n m) = tag "red" (decimal n ++ codes " / " ++ num_text m)
load_piece (blue n m) = tag "blue" (decimal n ++ codes " / " ++ num_text m)
load_piece (grey n m) = tag "default" (decimal n ++ codes " / " ++ num_text m)

-- The inputs for the ports, with the number of ports where it is shown.
pub data PortInputs : Type 0 where
  two_numbers : (start end count : Option Num) → PortInputs
  tags : (ports : List Text) (count : Option Num) → PortInputs

abbrev pub shown_if : Bool → Num → Option Num
shown_if b n = if b then some n else none

abbrev pub count_of : Page → Num
count_of p = port_count p.port_mode p.port_start p.port_end (some p.port_list)

abbrev pub inputs_of : PortMode → Page → PortInputs
inputs_of range p =
    two_numbers p.port_start p.port_end (shown_if (num_lt (nat 0) (count_of p)) (count_of p))
inputs_of list p =
    let n = nat (length p.port_list) in tags p.port_list (shown_if (num_lt (nat 0) n) n)

unfoldable pub port_inputs : Page → PortInputs
port_inputs p = inputs_of p.port_mode p

-- The warning below them; `watched` is the form's `rehlds_run_max`.
unfoldable pub warning : Option Num → Page → Option Text
unfolding port_insufficient
warning watched p =
    if port_insufficient watched p
    then some (
        codes "端口数量（"
        ++ num_text (count_of p)
        ++ codes "）少于 REHLDS 最大并发数（"
        ++ num_text (or_zero watched)
        ++ codes "），保存时将被拒绝")
    else none

abbrev pub hostname_of : Option Agent → Text
hostname_of none = []
hostname_of (some a) = codes a.hostname

-- `format` is `dayjs(v).format(FMT)`, `from_now` `dayjs(v).fromNow()`, and `age` the seconds that
-- `dayjs().diff` counts.
module _ (format from_now : String → Text) (age : String → ℤ)
    (locale_compare : Text → Text → ℤ) where
  abbrev pub columns : Text → List (Column Agent Event)
  columns latest =
      record { title = "在线"; cell = λ r. online_piece (is_online (age r.heartbeat_at)) ∷ [] }
      ∷ plain "UUID" (λ r. codes r.uuid)
      ∷ plain "Hostname" (λ r. codes r.hostname)
      ∷ plain "公网 IP" (λ r. codes r.public_ip)
      ∷ plain "内网 IP" (λ r. codes r.local_ip)
      ∷ plain "CPU核数" (λ r. codes r.cpu)
      ∷ plain "内存(MB)" (λ r. decimal r.mem_mb)
      ∷ plain "磁盘(GB)" (λ r. decimal r.disk_gb)
      ∷ record { title = "调度状态"; cell = λ r. status_piece r.status ∷ [] }
      ∷ plain "REHLDS端口范围" (λ r. r.rehlds_port_range)
      ∷ record { title = "Agent版本"; cell = λ r. version_piece (version_tag latest r.version) ∷ [] }
      ∷ record { title = "运行负载"; cell = λ r. load_piece (load_tag r) ∷ [] }
      ∷ plain "创建时间" (λ r. format r.created_at)
      ∷ plain "更新时间" (λ r. format r.updated_at)
      ∷ record {
        title = "心跳时间";
        cell = λ r. titled (format r.heartbeat_at) (from_now r.heartbeat_at) ∷ [];
      }
      ∷ record { title = "操作"; cell = λ r. button "编辑" (edit_clicked r) ∷ [] }
      ∷ []

  unfoldable pub view : Page → Drawn Event
  unfolding table latest_version
  view p = record {
    tools = button "刷新" refresh_clicked ∷ [];
    main =
        table (columns (latest_version locale_compare p.agents))
          (record { rows = p.agents; loading = p.loading });
    dialogs =
        record {
          title = codes "编辑 Agent: " ++ hostname_of p.edit_target;
          is_open = is_some p.edit_target;
          is_busy = false;
          ok_label = "保存";
          on_ok = save_clicked;
          on_cancel = edit_cancelled;
          items = item "status" "调度状态" true ∷ item "rehlds_run_max" "REHLDS最大并发数" false ∷ [];
        }
        ∷ [];
  }
