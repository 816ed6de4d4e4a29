-- ===== src/Console/Lists.antt =====
-- pages/WxRoomsPage.tsx, pages/FeedbackPage.tsx and pages/LegacyPlayersPage.tsx: three pages that
-- only show what they fetch.
pub mod View
use mr1v.Base.{ℕ, Bool, Option, none, some, List, [], ◌∷◌, String, str_eq, if◌then◌else◌}
use mr1v.Js.Num.{ℤ, ◌-ℤ◌}
use mr1v.Js.Text.{Text, is_empty}
use mr1v.Js.Dict.{get}
use mr1v.Console.Fetch.{Listing, Reply, begin, finish}
use mr1v.Console.Matches.{or_else}

pub record WxRoom : Type 0 where
  pub id : String
  pub title : String
  pub creator_openid : String
  pub creator_name : String
  pub joiner_openid : String
  pub joiner_name : String
  pub locked : Bool
  pub status : String
  pub created_at : String
  pub deleted_at : Option String

unfoldable pub fetch_rooms : Listing WxRoom → Listing WxRoom
fetch_rooms l = begin l

unfoldable pub fetched_rooms : Reply WxRoom → Listing WxRoom → Listing WxRoom
fetched_rooms r l = finish r l

abbrev pub status_color : List (String × String)
status_color = ("waiting", "blue") ∷ ("ready", "gold") ∷ ("matched", "green") ∷ []

-- The status column: colour and text.
unfoldable pub room_status : WxRoom → String × String
unfolding get
room_status r = elim r.deleted_at [
  | none ↦ (or_else (get r.status status_color) "default", r.status)
  | some at ↦
      if str_eq at ""
      then (or_else (get r.status status_color) "default", r.status)
      else ("default", "已关闭")
]

pub record Feedback : Type 0 where
  pub id : ℕ
  pub nickname : String
  pub content : String
  pub created_at : String

unfoldable pub fetch_items : Listing Feedback → Listing Feedback
fetch_items l = begin l

unfoldable pub fetched_items : Reply Feedback → Listing Feedback → Listing Feedback
fetched_items r l = finish r l

-- The rates of a player, which may be fractions, are only shown, and are kept as they print.
pub record LegacyPlayer : Type 0 where
  pub steam_id : String
  pub name : String
  pub score : ℤ
  pub total_match : ℕ
  pub total_match_win : ℕ
  pub kd : Text
  pub win_rate : Text
  pub rating : Text

pub record LegacyPage : Type 0 where
  pub players : Listing LegacyPlayer
  pub keyword : Text

-- `fetchPlayers`; the second part is the keyword that GET /legacy-players carries, if any.
unfoldable pub fetch_players : Option Text → LegacyPage → LegacyPage × Option Text
fetch_players none p = (record p { players = begin p.players }, none)
fetch_players (some kw) p =
    (record p { players = begin p.players }, if is_empty kw then none else some kw)

unfoldable pub fetched_players : Reply LegacyPlayer → LegacyPage → LegacyPage
fetched_players r p = record p { players = finish r p.players }

unfoldable pub set_keyword : Text → LegacyPage → LegacyPage
set_keyword kw p = record p { keyword = kw }

-- The order of the score column.
unfoldable pub score_order : LegacyPlayer → LegacyPlayer → ℤ
score_order a b = a.score -ℤ b.score
