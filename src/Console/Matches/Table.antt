-- ===== src/Console/Matches/Table.antt =====
-- pages/MatchesPage.tsx: the table of matches, its dialog, its expanded rows with their tables, and
-- what their clicks do.
pub mod Offers
use mr1v.Base.{
  map, ℕ, ◌≡◌, refl, Bool, true, false, not, Option, none, some, List, [], ◌∷◌, ◌++◌, String,
  str_eq, if◌then◌else◌, append-nil, All, All-append, In, inl, inr, Bool-cases,
}
use mr1v.Js.Num.{Num}
use mr1v.Js.Text.{Text, codes, is_empty}
use mr1v.Js.Dict.{get, has}
use mr1v.Js.Parse.{decimal, num_text}
use mr1v.Console.Fetch.{Listing}
use mr1v.Console.View.{
  Piece, search, words, faint, code, tag, button, confirm, Column, plain, Table, table,
  table_offers, table_offers-All, In-table_offers, In-append_left, row_offers, row_cells, item,
  gather, piece_offers, Drawn, dialog_offers, drawn_offers,
}
use mr1v.Console.Matches.{Match, OpLog, ServerInfo, ServerQuery, Player}
use mr1v.Console.Matches.Page.{
  Page, MatchValues, Request, get_matches, post_match, post_end, post_destroy, fetch_matches,
  handle_create, handle_end, handle_destroy, open_create, cancel_create, handle_expand,
  refresh_server, search_rules,
}
use mr1v.Console.Matches.Rules.{Rule}
use mr1v.Console.Matches.Views.{log_row, player_time, state_tag, has_actions}

pub data Event : Type 0 where
  refresh_clicked create_clicked create_confirmed create_cancelled : Event
  end_confirmed destroy_confirmed : String → Event
  row_toggled : (expanded : Bool) → String → Event
  server_refreshed : String → Event
  rules_searched rules_typed : String → Text → Event

-- A click; `validated` is what the form's `validateFields` resolves to.
unfoldable pub click : Option MatchValues → Event → Page → Page × List Request
unfolding fetch_matches handle_create handle_end handle_destroy open_create cancel_create
    handle_expand refresh_server search_rules
click validated refresh_clicked p = fetch_matches p
click validated create_clicked p = (open_create p, [])
click validated create_confirmed p = handle_create validated p
click validated create_cancelled p = (cancel_create p, [])
click validated (end_confirmed id) p = handle_end id p
click validated (destroy_confirmed id) p = handle_destroy id p
click validated (row_toggled expanded id) p = handle_expand expanded id p
click validated (server_refreshed id) p = refresh_server id p
click validated (rules_searched id v) p = (search_rules id v p, [])
click validated (rules_typed id v) p = (if is_empty v then search_rules id [] p else p, [])

abbrev pub map_piece : String → Piece Event
map_piece v = if str_eq v "" then faint (codes "-") else tag "green" (codes v)

abbrev pub action_cell : Match → List (Piece Event)
action_cell r =
    if has_actions r
    then confirm "结束比赛？将发送RCON倒计时指令后销毁容器。" "结束" (end_confirmed r.match_id)
      ∷ confirm "强制销毁容器？玩家不会收到通知。" "销毁" (destroy_confirmed r.match_id)
      ∷ []
    else []

-- A row below a match: whether it is open, what its icon does, and its pieces.
pub record Expansion : Type 0 where
  pub is_open : Bool
  pub toggle : Event
  pub pieces : List (Piece Event)

-- The box for the search of the rules, once they are there.
abbrev pub rules_box : String → Bool → Option ServerQuery → List (Piece Event)
rules_box id awaited none = []
rules_box id awaited (some q) =
    if awaited then [] else search "搜索参数名或值" [] (rules_typed id) (rules_searched id) ∷ []

-- `expandedRowRender` as far as it can be clicked; `is_expanded` is the table's own state.
unfoldable pub expansion : (is_expanded : String → Bool) → Page → Match → Expansion
expansion is_expanded p r = record {
  is_open = is_expanded r.match_id;
  toggle = row_toggled (not (is_expanded r.match_id)) r.match_id;
  pieces =
      (if has_actions r then button "刷新服务器数据" (server_refreshed r.match_id) ∷ [] else [])
      ++ rules_box r.match_id (has r.match_id p.server_loading) (get r.match_id p.server_cache);
}

abbrev pub expansion_offers : Expansion → List Event
expansion_offers x = x.toggle ∷ (if x.is_open then gather piece_offers x.pieces else [])

-- The page with the rows below its matches, and all that it offers.
pub record MatchesDrawn : Type 0 where
  pub drawn : Drawn Event
  pub expansions : List Expansion

abbrev pub page_offers : MatchesDrawn → List Event
page_offers d = drawn_offers d.drawn ++ gather expansion_offers d.expansions

-- `format` is `dayjs(v).format(FMT)`.
module _ (format : String → Text) where
  abbrev pub columns : List (Column Match Event)
  columns =
      record {
        title = "状态";
        cell = λ r. tag (state_tag r.state).0 (codes (state_tag r.state).1) ∷ [];
      }
      ∷ plain "Match ID" (λ r. codes r.match_id)
      ∷ plain "玩家0 SteamID" (λ r. codes r.p0_steamid)
      ∷ plain "玩家1 SteamID" (λ r. codes r.p1_steamid)
      ∷ plain "服务器名" (λ r. codes r.server_name)
      ∷ record { title = "地图"; cell = λ r. map_piece r.map_name ∷ [] }
      ∷ plain "Agent" (λ r. codes r.agent_uuid)
      ∷ plain "端口" (λ r. decimal r.port)
      ∷ plain "创建时间" (λ r. format r.created_at)
      ∷ record { title = "更新时间"; cell = λ r. faint (format r.updated_at) ∷ [] }
      ∷ record { title = "操作"; cell = action_cell }
      ∷ []

  abbrev pub main_view : Page → Drawn Event
  main_view p = record {
    tools = button "创建比赛" create_clicked ∷ button "刷新" refresh_clicked ∷ [];
    main = table columns (record { rows = p.matches; loading = p.loading });
    dialogs =
        record {
          title = codes "创建比赛";
          is_open = p.create_open;
          is_busy = p.creating;
          ok_label = "创建";
          on_ok = create_confirmed;
          on_cancel = create_cancelled;
          items =
              item "p0_steamid" "玩家0 SteamID" true
              ∷ item "p1_steamid" "玩家1 SteamID" true
              ∷ item "server_name" "服务器名（可选）" false
              ∷ [];
        }
        ∷ [];
  }

  unfoldable pub view : (is_expanded : String → Bool) → Page → MatchesDrawn
  unfolding table expansion
  view is_expanded p = record {
    drawn = main_view p;
    expansions = map (expansion is_expanded p) p.matches;
  }

  -- `LOG_COLS`.
  abbrev pub log_columns : List (Column OpLog Event)
  log_columns =
      plain "时间" (λ v. format v.created_at)
      ∷ record { title = "来源"; cell = λ v. tag (log_row v).color (codes (log_row v).actor) ∷ [] }
      ∷ plain "操作" (λ v. codes (log_row v).action)
      ∷ record { title = "详情"; cell = λ v. code (codes v.detail) ∷ [] }
      ∷ []

-- `PLAYER_COLS`.
abbrev pub player_columns : List (Column Player Event)
player_columns =
    plain "#" (λ v. decimal v.index)
    ∷ plain "玩家名" (λ v. codes v.name)
    ∷ plain "得分" (λ v. num_text v.score)
    ∷ plain "在线时长" player_time
    ∷ []

-- The description of a server, as labels and texts.
unfoldable pub server_items : ServerInfo → List (String × Text)
server_items i =
    ("服务器名", codes i.name)
    ∷ ("地图", codes i.map)
    ∷ (
      "玩家",
      decimal i.players
          ++ codes " / "
          ++ decimal i.max_players
          ++ codes "（Bot "
          ++ decimal i.bots
          ++ codes "）",
    )
    ∷ ("游戏", codes i.game)
    ∷ ("类型", codes i.server_type)
    ∷ ("系统", codes i.server_os)
    ∷ ("VAC", codes (if i.vac then "开启" else "关闭"))
    ∷ ("密码", codes (if i.visibility then "有" else "无"))
    ∷ ("版本", codes i.version)
    ∷ []
