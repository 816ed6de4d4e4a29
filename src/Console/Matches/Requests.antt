-- ===== src/Console/Matches/Requests.antt =====
-- pages/MatchesPage.tsx: the page beside the requests that have not been answered. Replies come in
-- any order, and the user acts between them.
pub mod Logs
pub mod Server
use mr1v.Base.{
  ℕ, suc, ◌+◌, ◌≡◌, refl, Bool, true, false, Option, none, some, List, [], ◌∷◌, ◌++◌, String,
  str_eq, if◌then◌else◌, arith,
}
use mr1v.Js.Text.{Text}
use mr1v.Console.Matches.{Match, OpLog}
use mr1v.Console.Matches.Page.{
  Page, initial, Request, get_matches, post_match, post_end, post_destroy, get_logs, get_server,
  MatchValues, Notice, Created, created, rejected, fetch_matches, fetched_matches, handle_create,
  create_replied, handle_end, handle_destroy, dispatched, logs_replied, Queried, server_replied,
  refresh_server, handle_expand, search_rules, open_create, cancel_create,
}

pub record World : Type 0 where
  pub page : Page
  pub pending : List Request

abbrev pub start : World
start = record { page = initial; pending = [] }

-- The page after a handler, whose requests join those that wait.
abbrev pub asking : World → Page × List Request → World
asking w (p, asked) = record { page = p; pending = w.pending ++ asked }

-- A request is answered: it leaves the list, wherever it stands.
abbrev pub Waits : World → Request → List Request → List Request → Type 0
Waits w r before after = w.pending ≡ before ++ (r ∷ after)

pub data Step (w : World) : World → Type 0 where
  refresh_matches : Step w (asking w (fetch_matches w.page))
  expand_row :
      (expanded : Bool) (id : String) → Step w (asking w (handle_expand expanded id w.page))
  refresh_row : (id : String) → Step w (asking w (refresh_server id w.page))
  create_sent : (v : Option MatchValues) → Step w (asking w (handle_create v w.page))
  end_sent : (id : String) → Step w (asking w (handle_end id w.page))
  destroy_sent : (id : String) → Step w (asking w (handle_destroy id w.page))
  rules_searched : (id : String) (v : Text) → Step w (record w { page = search_rules id v w.page })
  create_opened : Step w (record w { page = open_create w.page })
  create_cancelled : Step w (record w { page = cancel_create w.page })
  matches_answered :
      (r : Option (Option (List Match))) (before after : List Request)
      → Waits w get_matches before after
      → Step w (record { page = fetched_matches r w.page; pending = before ++ after })
  logs_answered :
      (id : String) (r : Option (Option (List OpLog))) (before after : List Request)
      → Waits w (get_logs id) before after
      → Step w (record { page = logs_replied id r w.page; pending = before ++ after })
  server_answered :
      (id : String) (r : Queried) (before after : List Request)
      → Waits w (get_server id) before after
      → Step w (record { page = server_replied id r w.page; pending = before ++ after })
  match_answered :
      (v : MatchValues) (r : Created) (before after : List Request)
      → Waits w (post_match v) before after
      → Step w (record {
        page = (create_replied r w.page).0;
        pending = (before ++ after) ++ (create_replied r w.page).1;
      })
  end_answered :
      (id : String) (ok : Bool) (n : Notice) (before after : List Request)
      → Waits w (post_end id) before after
      → Step w (record {
        page = (dispatched ok n w.page).0;
        pending = (before ++ after) ++ (dispatched ok n w.page).1;
      })
  destroy_answered :
      (id : String) (ok : Bool) (n : Notice) (before after : List Request)
      → Waits w (post_destroy id) before after
      → Step w (record {
        page = (dispatched ok n w.page).0;
        pending = (before ++ after) ++ (dispatched ok n w.page).1;
      })

pub data Reach : World → Type 0 where
  here : Reach start
  next : {w v : World} → Reach w → Step w v → Reach v

-- How many requests of a kind wait.
module _ (wanted : Request → Bool) where
  abbrev pub waiting : List Request → ℕ
  waiting [] = 0
  waiting (r ∷ rs) = (if wanted r then 1 else 0) + waiting rs

  pub waiting-append : (rs ss : List Request) → waiting (rs ++ ss) ≡ waiting rs + waiting ss
  waiting-append [] ss = omega arith
  waiting-append (r ∷ rs) ss = omega (arith, waiting-append rs ss)

  -- A request that leaves counts no more.
  pub waiting-answered :
      (r : Request) (before after pending : List Request)
      → pending ≡ before ++ (r ∷ after)
      → waiting pending ≡ (if wanted r then 1 else 0) + waiting (before ++ after)
  waiting-answered r before after pending e =
      rw (e, waiting-append before (r ∷ after), waiting-append before after) (omega arith)

abbrev pub is_logs : String → Request → Bool
is_logs id (get_logs k) = str_eq k id
is_logs id _ = false

abbrev pub is_server : String → Request → Bool
is_server id (get_server k) = str_eq k id
is_server id _ = false
