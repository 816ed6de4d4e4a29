-- ===== src/Console/Matches/Views.antt =====
-- pages/MatchesPage.tsx: what the table and an expanded row show.
pub mod Failed
use mr1v.Base.{
  ℕ, ◌≡◌, refl, Bool, true, false, not, ◌||◌, Option, none, some, List, [], ◌∷◌, ◌++◌, map, String,
  if◌then◌else◌,
}
use mr1v.Js.Num.{ℤ}
use mr1v.Js.Text.{Text, is_empty}
use mr1v.Js.Dict.{get, has}
use mr1v.Console.Agents.Ports.{or_nil}
use mr1v.Console.Matches.{
  Match, OpLog, ServerInfo, Player, PlayerInfo, RulesInfo, ServerQuery, actor_color, action_label,
  state_color, state_label, active_states, or_else,
}
use mr1v.Console.Matches.Page.{Page}
use mr1v.Console.Matches.Rules.{Rule, rule_entries}
use mr1v.Console.Matches.Duration.{fmt_duration}

-- A tab is a spinner, an error or its content.
pub data Tab {ℓ} (A : Type ℓ) : Type ℓ where
  spin : Tab A
  alert : Text → Tab A
  shows : A → Tab A

abbrev truthy : Option Text → Bool
truthy none = false
truthy (some s) = not (is_empty s)

abbrev the_text : Option Text → Text
the_text none = []
the_text (some s) = s

-- `if (error) alert; if (!part) spinner; content`.
abbrev pub tab_of {ℓ κ} : {A : Type ℓ} {B : Type κ} → Option Text → Option A → (A → B) → Tab B
tab_of error part content =
    if truthy error
    then alert (the_text error)
    else elim part [ none ↦ spin | some a ↦ shows (content a) ]

unfoldable pub server_info_tab : ServerQuery → Tab ServerInfo
server_info_tab q = tab_of q.info_error q.info (λ i. i)

-- The rows of the players' table: name, score and time.
unfoldable pub players_tab : ServerQuery → Tab (List Player)
players_tab q = tab_of q.players_error q.players (λ i. or_nil i.players)

unfoldable pub player_time : Player → Text
unfolding fmt_duration
player_time v = fmt_duration v.duration

-- A log line: the source with its colour, the action's label and the detail.
pub record LogRow : Type 0 where
  pub actor : String
  pub color : String
  pub action : String
  pub detail : String

unfoldable pub log_row : OpLog → LogRow
unfolding get
log_row v = record {
  actor = v.actor;
  color = or_else (get v.actor actor_color) "default";
  action = or_else (get v.action action_label) v.action;
  detail = v.detail;
}

-- The state column: colour and label.
unfoldable pub state_tag : String → String × String
unfolding get
state_tag v = (or_else (get v state_color) "default", or_else (get v state_label) v)

-- The action column shows its two buttons for a match that is under way.
unfoldable pub has_actions : Match → Bool
unfolding has
has_actions r = has r.state active_states

module _ (locale_compare : Text → Text → ℤ) where
  unfoldable pub rules_tab : ServerQuery → Text → Tab (List Rule)
  rules_tab q search =
      tab_of q.rules_error q.rules (λ r. rule_entries locale_compare r.rules search)

  pub record ExpandedRow : Type 0 where
    pub log_tab : Tab (List OpLog)
    pub server_tab : Tab ServerInfo
    pub player_tab : Tab (List Player)
    pub rule_tab : Tab (List Rule)
    pub server_disabled : Bool
    pub refresh_shown : Bool

  -- While the data is awaited, or when there is none, a server tab is a spinner.
  abbrev server_part {ℓ} : {A : Type ℓ} → Bool → Option ServerQuery → (ServerQuery → Tab A) → Tab A
  server_part awaited none tab = spin
  server_part awaited (some q) tab = if awaited then spin else tab q

  abbrev log_part : Bool → Option (List OpLog) → Tab (List OpLog)
  log_part awaited none = spin
  log_part awaited (some logs) = if awaited then spin else shows logs

  unfoldable pub expanded_row : Page → Match → ExpandedRow
  unfolding server_info_tab players_tab rules_tab has_actions
  expanded_row p r =
      let id = r.match_id in
      let awaited = has id p.server_loading in
      let sq = get id p.server_cache in
      record {
        log_tab = log_part (has id p.logs_loading) (get id p.logs_cache);
        server_tab = server_part awaited sq server_info_tab;
        player_tab = server_part awaited sq players_tab;
        rule_tab = server_part awaited sq (λ q. rules_tab q (the_text (get id p.rule_search)));
        server_disabled = not (has_actions r);
        refresh_shown = has_actions r;
      }
