-- ===== src/Server/Agent.antt =====
-- internal/agent/agent.go: what an agent does on the commands of the backend, and what it reports.
-- `Untold` is about a container that cannot be started.
pub mod Untold
use mr1v.Base.{
  ◌≡◌, refl, Bool, true, false, not, ◌&&◌, Option, none, some, List, [], ◌∷◌, ◌++◌, map, String,
  str_eq, if◌then◌else◌, arith, Bool-cases, inl, inr, ap,
}
use mr1v.Js.Num.{ℤ, pos}
use mr1v.Js.Dict.{get, put, drop_key, get-put, str_eq_refl}
use mr1v.Server.Creation.{CreateCommand}
use mr1v.Server.Status.{ContainerState, running, error, stopped}

-- `matchState`, and the map of them by match.
pub record MatchState : Type 0 where
  pub port : ℤ
  pub rcon_password : String

abbrev pub Tracked : Type 0
Tracked = List (String × MatchState)

-- `StatusReport` without its message and time.
pub record Report : Type 0 where
  pub match_id : String
  pub port : ℤ
  pub state : ContainerState

abbrev pub reported : String → ℤ → ContainerState → Report
reported id port s = record { match_id = id; port = port; state = s }

-- What is tracked, what is published, and whether the game server is asked for a countdown.
pub record Acted : Type 0 where
  pub tracked : Tracked
  pub report : Report
  pub countdown : Bool

abbrev pub acted : Tracked → Report → Acted
acted d r = record { tracked = d; report = r; countdown = false }

abbrev pub image_of : String → String → String
image_of default image = if str_eq image "" then default else image

-- `createMatch`. `password` is what `randomRCONPassword` gives, and `started` says whether
-- `CreateAndStart` succeeds.
abbrev pub with_password : Option String → Bool → CreateCommand → Tracked → Acted
with_password none started c d = acted d (reported c.match_id c.port error)
with_password (some p) started c d =
    if started
    then acted (put c.match_id (record { port = c.port; rcon_password = p }) d)
        (reported c.match_id c.port running)
    else acted d (reported c.match_id c.port error)

unfoldable pub create_match :
    (default_image : String) (password : Option String) (started : Bool)
    → CreateCommand
    → Tracked
    → Acted
unfolding put
create_match default_image password started c d =
    if str_eq (image_of default_image c.image) ""
    then acted d (reported c.match_id c.port error)
    else with_password password started c d

abbrev pub has_password : Option MatchState → Bool
has_password none = false
has_password (some s) = not (str_eq s.rcon_password "")

-- `freePortForMatch` gives 0 for a match that is not tracked.
abbrev pub port_or_zero : Option MatchState → ℤ
port_or_zero none = pos 0
port_or_zero (some s) = s.port

-- `teardownMatch`; `removed` says whether `StopAndRemoveByMatchID` succeeds.
unfoldable pub teardown_match : (removed : Bool) → String → (force : Bool) → Tracked → Acted
unfolding get drop_key
teardown_match removed id force d =
    let asked = not force && has_password (get id d) in
    if removed
    then record {
      tracked = drop_key id d;
      report = reported id (port_or_zero (get id d)) stopped;
      countdown = asked;
    }
    else record { tracked = d; report = reported id (pos 0) error; countdown = asked }

-- The ports of the matches that are tracked.
unfoldable pub busy_ports_list : Tracked → List ℤ
busy_ports_list d = map (λ (e : String × MatchState). e.1.port) d

get-put_same : (id : String) (s : MatchState) (d : Tracked) → get id (put id s d) ≡ some s
get-put_same id s d = rw (get-put id id s d, str_eq_refl id) refl

drop_key-put :
    (id : String) (s : MatchState) (d : Tracked) → get id d ≡ none → drop_key id (put id s d) ≡ d
unfolding get drop_key put
drop_key-put id s [] e = rw (str_eq_refl id) refl
drop_key-put id s ((k, t) ∷ d) e = elim (Bool-cases (str_eq k id)) [
  | inl same ↦ absurd (ground (arith, same, e))
  | inr other ↦ rw (other, other) (ap (λ r. (k, t) ∷ r) (drop_key-put id s d (rw other at e)))
]

-- A match that was not tracked, whose container is started and then removed, is reported as running
-- and as stopped with the port of its command, and what the agent tracks is as before.
pub teardown_match-create_match :
    (default_image password : String) (force : Bool) (c : CreateCommand) (d : Tracked)
    → str_eq (image_of default_image c.image) "" ≡ false
    → get c.match_id d ≡ none
    → let made = create_match default_image (some password) true c d in
      let ended = teardown_match true c.match_id force made.tracked in
      (made.report ≡ reported c.match_id c.port running)
      × (ended.report ≡ reported c.match_id c.port stopped)
      × (ended.tracked ≡ d)
unfolding create_match teardown_match
teardown_match-create_match default_image password force c d image fresh =
    let s : MatchState = record { port = c.port; rcon_password = password } in
    rw image (refl, rw (get-put_same c.match_id s d) refl, drop_key-put c.match_id s d fresh)
