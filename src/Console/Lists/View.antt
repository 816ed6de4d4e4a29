-- ===== src/Console/Lists/View.antt =====
-- pages/WxRoomsPage.tsx, pages/FeedbackPage.tsx and pages/LegacyPlayersPage.tsx: what the pages draw.
use mr1v.Base.{Bool, Option, none, some, List, [], ◌∷◌, ◌++◌, String, str_eq, if◌then◌else◌}
use mr1v.Js.Num.{int}
use mr1v.Js.Text.{Text, codes}
use mr1v.Js.Parse.{decimal, num_text}
use mr1v.Console.Fetch.{Listing}
use mr1v.Console.View.{
  Piece, words, faint, tag, bare_tag, button, search, Column, plain, table, Drawn,
}
use mr1v.Console.Lists.{
  WxRoom, room_status, Feedback, LegacyPlayer, LegacyPage, fetch_players, set_keyword,
}

pub data RoomsEvent : Type 0 where
  rooms_refreshed : RoomsEvent

pub data FeedbackEvent : Type 0 where
  items_refreshed : FeedbackEvent

pub data PlayersEvent : Type 0 where
  players_refreshed : PlayersEvent
  keyword_typed search_sent : Text → PlayersEvent

-- The search box and the button of the page of legacy players; the second part is the keyword of
-- the request, if one is made that has a keyword.
unfoldable pub click_players : PlayersEvent → LegacyPage → LegacyPage × Option Text
unfolding fetch_players set_keyword
click_players players_refreshed p = fetch_players (some p.keyword) p
click_players (keyword_typed v) p = (set_keyword v p, none)
click_players (search_sent v) p = fetch_players (some v) p

abbrev pub joiner_piece : String → Piece RoomsEvent
joiner_piece v = if str_eq v "" then faint (codes "无") else words (codes v)

abbrev pub locked_piece : Bool → Piece RoomsEvent
locked_piece v = if v then tag "orange" (codes "有密码") else bare_tag (codes "无密码")

-- `format` is `dayjs(v).format(FMT)`.
module _ (format : String → Text) where
  abbrev pub closing_time : Option String → Text
  closing_time none = codes "-"
  closing_time (some v) = if str_eq v "" then codes "-" else format v

  abbrev pub room_columns : List (Column WxRoom RoomsEvent)
  room_columns =
      plain "房间标题" (λ r. codes r.title)
      ∷ plain "房主" (λ r. codes r.creator_name)
      ∷ record { title = "对手"; cell = λ r. joiner_piece r.joiner_name ∷ [] }
      ∷ record { title = "密码"; cell = λ r. locked_piece r.locked ∷ [] }
      ∷ record { title = "状态"; cell = λ r. tag (room_status r).0 (codes (room_status r).1) ∷ [] }
      ∷ plain "创建时间" (λ r. format r.created_at)
      ∷ plain "关闭时间" (λ r. closing_time r.deleted_at)
      ∷ []

  unfoldable pub rooms_view : Listing WxRoom → Drawn RoomsEvent
  unfolding table
  rooms_view l = record {
    tools = button "刷新" rooms_refreshed ∷ [];
    main = table room_columns l;
    dialogs = [];
  }

  abbrev pub feedback_columns : List (Column Feedback FeedbackEvent)
  feedback_columns =
      plain "昵称" (λ r. codes r.nickname)
      ∷ plain "建议内容" (λ r. codes r.content)
      ∷ plain "提交时间" (λ r. format r.created_at)
      ∷ []

  unfoldable pub feedback_view : Listing Feedback → Drawn FeedbackEvent
  unfolding table
  feedback_view l = record {
    tools = button "刷新" items_refreshed ∷ [];
    main = table feedback_columns l;
    dialogs = [];
  }

abbrev pub player_columns : List (Column LegacyPlayer PlayersEvent)
player_columns =
    plain "昵称" (λ r. codes r.name)
    ∷ plain "SteamID" (λ r. codes r.steam_id)
    ∷ plain "积分" (λ r. num_text (int r.score))
    ∷ plain "总场次" (λ r. decimal r.total_match)
    ∷ plain "胜场" (λ r. decimal r.total_match_win)
    ∷ plain "胜率" (λ r. r.win_rate ++ codes "%")
    ∷ plain "K/D" (λ r. r.kd)
    ∷ plain "Rating" (λ r. r.rating)
    ∷ []

unfoldable pub players_view : LegacyPage → Drawn PlayersEvent
unfolding table
players_view p = record {
  tools = search "按昵称搜索" p.keyword keyword_typed search_sent ∷ button "刷新" players_refreshed ∷ [];
  main = table player_columns p.players;
  dialogs = [];
}
