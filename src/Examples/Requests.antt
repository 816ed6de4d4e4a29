-- ===== src/Examples/Requests.antt =====
-- The matches' page at concrete inputs.
use mr1v.Base.{◌≡◌, refl, true, false, none, some, [], ◌∷◌, ◌++◌, if◌then◌else◌, length, String}
use mr1v.Js.Num.{ℤ, sub_ℕ}
use mr1v.Js.Text.{Text, codes, is_empty}
use mr1v.Js.Dict.{get, has, add}
use mr1v.Console.Matches.{Match, ServerQuery}
use mr1v.Console.Matches.Page.{
  initial, get_logs, get_server, answered, unanswered, ReplyError, query_of, handle_expand,
  logs_replied, server_replied,
}
use mr1v.Console.Matches.Requests.{
  World, start, asking, expand_row, logs_answered, server_answered, Reach, here, next, waiting,
  is_logs,
}
use mr1v.Console.Matches.Requests.Logs.{is_some, Reach-logs}
use mr1v.Console.Matches.Requests.Server.{Reach-server, crossed, stale_reply}
use mr1v.Console.Matches.Views.{alert, expanded_row}
use mr1v.Console.Matches.Views.Failed.{server_replied-expanded_row}

abbrev no_answer : ServerQuery
no_answer = record {
  info = none;
  players = none;
  rules = none;
  info_error = none;
  players_error = none;
  rules_error = none;
}

-- The row of `m1` was expanded, and nothing is answered yet.
abbrev expanded : World
expanded = asking start (handle_expand true "m1" initial)

expanded-Reach : Reach expanded
expanded-Reach = next here (expand_row true "m1")

stale_reply_example :
    Reach (record {
      page = crossed "m1" expanded (answered no_answer) (answered no_answer);
      pending = (get_logs "m1" ∷ []) ++ [];
    })
    × (get "m1" (crossed "m1" expanded (answered no_answer) (answered no_answer)).server_cache
        ≡ some (query_of (answered no_answer)))
unfolding handle_expand has add
stale_reply_example =
    stale_reply "m1" expanded (answered no_answer) (answered no_answer) (get_logs "m1" ∷ []) []
      expanded-Reach refl

-- Both replies have come: the log first, then the server's.
abbrev logged : World
logged = record {
  page = logs_replied "m1" (some none) expanded.page;
  pending = [] ++ (get_server "m1" ∷ []);
}

abbrev settled : World
settled = record { page = server_replied "m1" (answered no_answer) logged.page; pending = [] ++ [] }

settled-Reach : Reach settled
unfolding handle_expand has add
settled-Reach =
    next (next expanded-Reach (logs_answered "m1" (some none) [] (get_server "m1" ∷ []) refl))
      (server_answered "m1" (answered no_answer) [] [] refl)

Reach-logs_example :
    (waiting (is_logs "m1") expanded.pending
      ≡ (if has "m1" expanded.page.logs_loading then 1 else 0))
    × (has "m1" expanded.page.logs_fetched ≡ true
        → waiting (is_logs "m1") expanded.pending ≡ 0
        → is_some (get "m1" expanded.page.logs_cache) ≡ true)
Reach-logs_example = Reach-logs "m1" expanded expanded-Reach

Reach-server_example :
    (has "m1" settled.page.server_loading ≡ false)
    × (has "m1" settled.page.server_fetched ≡ true
        → is_some (get "m1" settled.page.server_cache) ≡ true)
Reach-server_example = Reach-server "m1" settled settled-Reach refl

abbrev length_compare : Text → Text → ℤ
length_compare a b = sub_ℕ (length a) (length b)

abbrev match_of : String → Match
match_of id = record {
  match_id = id;
  p0_steamid = "";
  p1_steamid = "";
  server_name = "";
  agent_uuid = "";
  port = 27015;
  image = "";
  map_name = "";
  state = "playing";
  created_at = "";
  updated_at = "";
}

-- An error without a response.
abbrev no_reply : ReplyError
no_reply = record { body_message = none; own_message = some (codes "timeout") }

server_replied-expanded_row_example :
    let after = server_replied "m1" (unanswered no_reply) logged.page in
    let row = expanded_row length_compare after (match_of "m1") in
    (row.server_tab ≡ alert (codes "timeout"))
    × (row.player_tab ≡ alert (codes "timeout"))
    × (row.rule_tab ≡ alert (codes "timeout"))
    × (is_empty (codes "timeout") ≡ false)
    × (row.log_tab ≡ (expanded_row length_compare logged.page (match_of "m1")).log_tab)
    × (row.refresh_shown ≡ (expanded_row length_compare logged.page (match_of "m1")).refresh_shown)
    × (expanded_row length_compare after (match_of "m2")
        ≡ expanded_row length_compare logged.page (match_of "m2"))
server_replied-expanded_row_example =
    server_replied-expanded_row length_compare no_reply logged.page (match_of "m1") (match_of "m2")
      refl
