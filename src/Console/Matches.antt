-- ===== src/Console/Matches.antt =====
-- pages/MatchesPage.tsx: the data of the page and its tables of labels and colours. `Page` is its
-- state and handlers, `Requests` the replies in any order, `Views` and `Rules` what it shows.
pub mod Page
pub mod Requests
pub mod Views
pub mod Rules
pub mod Duration
pub mod Table
use mr1v.Base.{ℕ, Bool, true, false, Option, none, some, List, [], ◌∷◌, String, ◌||◌}
use mr1v.Js.Num.{Num}
use mr1v.Js.Text.{Text}
use mr1v.Js.Dict.{get, has}

pub record Match : Type 0 where
  pub match_id : String
  pub p0_steamid : String
  pub p1_steamid : String
  pub server_name : String
  pub agent_uuid : String
  pub port : ℕ
  pub image : String
  pub map_name : String
  pub state : String
  pub created_at : String
  pub updated_at : String

pub record OpLog : Type 0 where
  pub id : ℕ
  pub match_id : String
  pub actor : String
  pub action : String
  pub detail : String
  pub created_at : String

pub record ServerInfo : Type 0 where
  pub protocol : ℕ
  pub name : String
  pub map : String
  pub folder : String
  pub game : String
  pub app_id : ℕ
  pub players : ℕ
  pub max_players : ℕ
  pub bots : ℕ
  pub server_type : String
  pub server_os : String
  pub visibility : Bool
  pub vac : Bool
  pub version : String

pub record Player : Type 0 where
  pub index : ℕ
  pub name : String
  pub score : Num
  pub duration : ℕ

pub record PlayerInfo : Type 0 where
  pub count : ℕ
  pub players : Option (List Player)

pub record RulesInfo : Type 0 where
  pub count : ℕ
  pub rules : List (Text × Text)

pub record ServerQuery : Type 0 where
  pub info : Option ServerInfo
  pub players : Option PlayerInfo
  pub rules : Option RulesInfo
  pub info_error : Option Text
  pub players_error : Option Text
  pub rules_error : Option Text

abbrev pub actor_color : List (String × String)
actor_color = ("platform", "blue") ∷ ("agent", "green") ∷ ("game", "orange") ∷ []

abbrev pub action_label : List (String × String)
action_label =
    ("create_dispatched", "下发创建指令")
    ∷ ("container_started", "容器启动")
    ∷ ("container_error", "容器异常")
    ∷ ("container_stopped", "容器停止")
    ∷ ("end_dispatched", "下发结束指令")
    ∷ ("destroy_dispatched", "下发销毁指令")
    ∷ ("timeout_destroy", "超时自动销毁")
    ∷ ("match_started", "比赛开始")
    ∷ ("match_ended", "比赛结束")
    ∷ []

abbrev pub state_color : List (String × String)
state_color =
    ("creating", "processing")
    ∷ ("waiting", "warning")
    ∷ ("playing", "blue")
    ∷ ("finished", "success")
    ∷ ("terminated", "error")
    ∷ ("timeout", "orange")
    ∷ ("error", "error")
    ∷ []

abbrev pub state_label : List (String × String)
state_label =
    ("creating", "创建中")
    ∷ ("waiting", "等待玩家")
    ∷ ("playing", "比赛进行中")
    ∷ ("finished", "正常结束")
    ∷ ("terminated", "平台终止")
    ∷ ("timeout", "超时终止")
    ∷ ("error", "异常")
    ∷ []

abbrev pub active_states : List String
active_states = "creating" ∷ "waiting" ∷ "playing" ∷ []

-- `table[key] ?? other`.
abbrev pub or_else : Option String → String → String
or_else none other = other
or_else (some v) other = v
