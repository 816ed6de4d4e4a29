-- ===== src/Console/Matches/Page.antt =====
-- pages/MatchesPage.tsx: the state of the page and its handlers. A handler up to its request also
-- returns the requests that it makes.
use mr1v.Base.{◌++◌, Bool, true, false, Option, none, some, List, [], ◌∷◌, String, if◌then◌else◌}
use mr1v.Js.Text.{Text, codes, is_empty}
use mr1v.Js.Dict.{put, drop_key, has, add, discard}
use mr1v.Console.Agents.Ports.{or_nil}
use mr1v.Console.Matches.{Match, OpLog, ServerQuery}

pub record Page : Type 0 where
  pub matches : List Match
  pub loading : Bool
  pub create_open : Bool
  pub creating : Bool
  pub logs_cache : List (String × List OpLog)
  pub logs_loading : List String
  pub logs_fetched : List String
  pub server_cache : List (String × ServerQuery)
  pub server_loading : List String
  pub server_fetched : List String
  pub rule_search : List (String × Text)

abbrev pub initial : Page
initial = record {
  matches = [];
  loading = false;
  create_open = false;
  creating = false;
  logs_cache = [];
  logs_loading = [];
  logs_fetched = [];
  server_cache = [];
  server_loading = [];
  server_fetched = [];
  rule_search = [];
}

-- The fields of the dialog that creates a match.
pub record MatchValues : Type 0 where
  pub p0_steamid : String
  pub p1_steamid : String
  pub server_name : Option String

-- GET /matches, POST /matches, POST /matches/:id/end, POST /matches/:id/destroy,
-- GET /matches/:id/logs and GET /matches/:id/server.
pub data Request : Type 0 where
  get_matches : Request
  post_match : MatchValues → Request
  post_end post_destroy get_logs get_server : String → Request

pub data Notice : Type 0 where
  match_created : String → Notice
  end_sent destroy_sent : Notice
  failed : Text → Notice

-- What a failed request carries: the message in the response's body, and the error's own.
pub record ReplyError : Type 0 where
  pub body_message : Option Text
  pub own_message : Option Text

-- `a || b`, where a missing and an empty text are falsy.
abbrev pub or_text : Option Text → Text → Text
or_text none other = other
or_text (some s) other = if is_empty s then other else s

unfoldable pub fetch_matches : Page → Page × List Request
fetch_matches p = (record p { loading = true }, get_matches ∷ [])

unfoldable pub fetched_matches : Option (Option (List Match)) → Page → Page
fetched_matches none p = record p { loading = false }
fetched_matches (some body) p = record p { matches = or_nil body; loading = false }

-- `handleCreate`; `none` is a form that does not validate.
unfoldable pub handle_create : Option MatchValues → Page → Page × List Request
handle_create none p = (p, [])
handle_create (some v) p = (record p { creating = true }, post_match v ∷ [])

pub data Created : Type 0 where
  created : String → Created
  rejected : ReplyError → Created

-- The reply to POST /matches: the dialog closes, or an error is shown; `creating` ends either way.
unfoldable pub create_replied : Created → Page → Page × List Request × Notice
create_replied (created match_id) p = (
  record p { create_open = false; loading = true; creating = false },
  get_matches ∷ [],
  match_created match_id,
)
create_replied (rejected e) p =
    (record p { creating = false }, [], failed (or_text e.body_message (codes "创建失败")))

unfoldable pub handle_end : String → Page → Page × List Request
handle_end match_id p = (p, post_end match_id ∷ [])

-- The reply to an end or a destroy; a failed one throws.
unfoldable pub dispatched : Bool → Notice → Page → Page × List Request × List Notice
dispatched ok n p =
    if ok then (record p { loading = true }, get_matches ∷ [], n ∷ []) else (p, [], [])

unfoldable pub handle_destroy : String → Page → Page × List Request
handle_destroy match_id p = (p, post_destroy match_id ∷ [])

unfoldable pub fetch_logs : String → Page → Page × List Request
fetch_logs id p = if has id p.logs_fetched then (p, []) else (
  record p { logs_fetched = add id p.logs_fetched; logs_loading = add id p.logs_loading },
  get_logs id ∷ [],
)

-- The reply; a failed request leaves an empty log.
unfoldable pub logs_replied : String → Option (Option (List OpLog)) → Page → Page
logs_replied id none p = record p {
  logs_cache = put id [] p.logs_cache;
  logs_loading = discard id p.logs_loading;
}
logs_replied id (some body) p = record p {
  logs_cache = put id (or_nil body) p.logs_cache;
  logs_loading = discard id p.logs_loading;
}

unfoldable pub fetch_server : String → Page → Page × List Request
fetch_server id p = if has id p.server_fetched then (p, []) else (
  record p { server_fetched = add id p.server_fetched; server_loading = add id p.server_loading },
  get_server id ∷ [],
)

pub data Queried : Type 0 where
  answered : ServerQuery → Queried
  unanswered : ReplyError → Queried

-- A failed request shows one message in all three tabs.
unfoldable pub query_of : Queried → ServerQuery
query_of (answered q) = q
query_of (unanswered e) =
    let msg = or_text e.body_message (or_text e.own_message (codes "请求失败")) in
    record {
      info = none;
      players = none;
      rules = none;
      info_error = some msg;
      players_error = some msg;
      rules_error = some msg;
    }

unfoldable pub server_replied : String → Queried → Page → Page
server_replied id r p = record p {
  server_cache = put id (query_of r) p.server_cache;
  server_loading = discard id p.server_loading;
}

unfoldable pub refresh_server : String → Page → Page × List Request
unfolding fetch_server
refresh_server id p = fetch_server id (record p {
  server_fetched = discard id p.server_fetched;
  server_cache = drop_key id p.server_cache;
})

abbrev pub and_then : Page × List Request → (Page → Page × List Request) → Page × List Request
and_then (p, asked) f = let (p', more) = f p in (p', asked ++ more)

unfoldable pub handle_expand : Bool → String → Page → Page × List Request
unfolding fetch_logs fetch_server
handle_expand false id p = (p, [])
handle_expand true id p = and_then (fetch_logs id p) (fetch_server id)

-- The search box of the rules; clearing it resets the search.
unfoldable pub search_rules : String → Text → Page → Page
search_rules id v p = record p { rule_search = put id v p.rule_search }

unfoldable pub open_create : Page → Page
open_create p = record p { create_open = true }

unfoldable pub cancel_create : Page → Page
cancel_create p = record p { create_open = false }
