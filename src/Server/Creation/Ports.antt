-- ===== src/Server/Creation/Ports.antt =====
-- internal/backend/backend.go: the ports that two requests for a match are given.
use mr1v.Base.{ℕ, ◌≡◌, true, false, some, List, String, str_eq}
use mr1v.Js.Num.{ℤ}
use mr1v.Server.Scheduler.{AgentRow, Pick, pick_agent_port}
use mr1v.Server.Creation.{MatchRow, database, CreateMatchRequest, Made, handle_create_match}

abbrev pub IsProper : CreateMatchRequest → Type 0
IsProper q = (str_eq q.p0_steamid "" ≡ false) × (str_eq q.p1_steamid "" ≡ false)

-- `pickAgentPort` when the table of matches is `seen`.
module _ (shuffle : List ℤ → List ℤ) (agents : List AgentRow) (now stale : ℕ) where
  abbrev pub pick : List MatchRow → Pick
  pick seen = pick_agent_port shuffle (database agents seen) now stale

-- A request whose choice saw the table `seen`, and whose statement changes `rows`.
module _ (random_map : String → String) (agents : List AgentRow) (now stale : ℕ)
    (image : String) where
  abbrev pub served :
      (shuffle : List ℤ → List ℤ) (id : String) (q : CreateMatchRequest) (seen rows : List MatchRow)
      → Made
  served shuffle id q seen rows =
      handle_create_match random_map true true (some id) (pick shuffle agents now stale seen)
        (some image) (some q) rows
