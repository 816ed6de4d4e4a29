-- ===== src/Server/Creation.antt =====
-- internal/backend/backend.go: `handleCreateMatch`, from the request to the command to the agent and
-- the row of manager_matches, from which `pickAgentPort` takes the busy ports of the next request.
pub mod Ports
use mr1v.Base.{
  ℕ, zero, suc, Bool, true, false, not, ◌&&◌, ◌||◌, Option, none, some, List, [], ◌∷◌, ◌++◌, map,
  select, String, str_eq, if◌then◌else◌,
}
use mr1v.Js.Num.{ℤ}
use mr1v.Js.Text.{Text, codes}
use mr1v.Server.Scheduler.{
  AgentRow, Database, Pick, picked, no_agent, none_on_latest, at_capacity, db_error,
  pick_agent_port,
}

pub record MatchRow : Type 0 where
  pub match_id : String
  pub p0_steamid : String
  pub p1_steamid : String
  pub server_name : Text
  pub agent_uuid : String
  pub port : ℤ
  pub image : String
  pub map_name : String
  pub state : String

-- The query for the busy ports of an agent.
abbrev pub uses_port : String → MatchRow → Bool
uses_port uuid r =
    str_eq r.agent_uuid uuid
    && (str_eq r.state "creating" || str_eq r.state "waiting" || str_eq r.state "playing")

unfoldable pub busy_ports : List MatchRow → String → List ℤ
busy_ports rows uuid = map (λ (r : MatchRow). r.port) (select (uses_port uuid) rows)

-- What the scheduler reads when no query of its own fails.
abbrev pub database : List AgentRow → List MatchRow → Database
database agents rows = record {
  agents = some agents;
  busy_ports = λ uuid. some (busy_ports rows uuid);
}

pub record CreateMatchRequest : Type 0 where
  pub p0_steamid : String
  pub p1_steamid : String
  pub server_name : String
  pub category : String
  pub map_name : String
  pub bot_test_mode : Bool

pub record CreateCommand : Type 0 where
  pub match_id : String
  pub server_name : Text
  pub port : ℤ
  pub p0_steamid : String
  pub p1_steamid : String
  pub image : String
  pub map_name : String
  pub bot_test_mode : Bool

pub data Reply : Type 0 where
  created : (match_id uuid public_ip : String) (port : ℤ) → Reply
  fail : ℕ → Reply

-- The reply, the table, and the commands that were published, each with its agent.
pub record Made : Type 0 where
  pub reply : Reply
  pub rows : List MatchRow
  pub sent : List (String × CreateCommand)

abbrev pub refused : ℕ → List MatchRow → Made
refused code rows = record { reply = fail code; rows = rows; sent = [] }

abbrev pub first_chars : ℕ → Text → Text
first_chars zero s = []
first_chars (suc n) [] = []
first_chars (suc n) (c ∷ s) = c ∷ first_chars n s

-- `fmt.Sprintf("mr1v1 1v1 #%s", matchID[:8])` when no name is given.
abbrev pub server_name_of : String → CreateMatchRequest → Text
server_name_of id q =
    if str_eq q.server_name ""
    then codes "mr1v1 1v1 #" ++ first_chars 8 (codes id)
    else codes q.server_name

abbrev pub has_match : String → List MatchRow → Bool
has_match id [] = false
has_match id (r ∷ rows) = str_eq r.match_id id || has_match id rows

-- `random_map` is the query of `pickRandomMap`, empty when there is no map of the category.
module _ (random_map : String → String) where
  abbrev pub map_of : CreateMatchRequest → String
  map_of q =
      if str_eq q.map_name ""
      then if str_eq q.category "" then "" else random_map q.category
      else q.map_name

  abbrev pub new_row : String → String → ℤ → String → CreateMatchRequest → MatchRow
  new_row id uuid port image q = record {
    match_id = id;
    p0_steamid = q.p0_steamid;
    p1_steamid = q.p1_steamid;
    server_name = server_name_of id q;
    agent_uuid = uuid;
    port = port;
    image = image;
    map_name = map_of q;
    state = "creating";
  }

  abbrev pub command : String → ℤ → String → CreateMatchRequest → CreateCommand
  command id port image q = record {
    match_id = id;
    server_name = server_name_of id q;
    port = port;
    p0_steamid = q.p0_steamid;
    p1_steamid = q.p1_steamid;
    image = image;
    map_name = map_of q;
    bot_test_mode = q.bot_test_mode;
  }

-- `published` and `inserted` say whether the command and the statement succeed.
module _ (random_map : String → String) (published inserted : Bool) where
  -- A row that cannot be inserted, as when the id is there, is logged, and the request goes on.
  abbrev pub dispatched :
      (id uuid ip : String) → ℤ → String → CreateMatchRequest → List MatchRow → Made
  dispatched id uuid ip port image q rows =
      if published
      then record {
        reply = created id uuid ip port;
        rows =
            if inserted && not (has_match id rows)
            then rows ++ (new_row random_map id uuid port image q ∷ [])
            else rows;
        sent = (uuid, command random_map id port image q) ∷ [];
      }
      else refused 500 rows

  abbrev pub with_image :
      (id uuid ip : String) → ℤ → Option String → CreateMatchRequest → List MatchRow → Made
  with_image id uuid ip port none q rows = refused 503 rows
  with_image id uuid ip port (some image) q rows = dispatched id uuid ip port image q rows

  abbrev pub with_pick : String → Pick → Option String → CreateMatchRequest → List MatchRow → Made
  with_pick id (picked uuid ip port) image q rows = with_image id uuid ip port image q rows
  with_pick id no_agent image q rows = refused 503 rows
  with_pick id none_on_latest image q rows = refused 503 rows
  with_pick id at_capacity image q rows = refused 503 rows
  with_pick id db_error image q rows = refused 503 rows

  abbrev pub with_id :
      Option String → Pick → Option String → CreateMatchRequest → List MatchRow → Made
  with_id none pick image q rows = refused 500 rows
  with_id (some id) pick image q rows = with_pick id pick image q rows

  -- `id` is what `generateMatchID` gives, `pick` what `pickAgentPort` does and `image` the active
  -- image; `none` as a request is a body that does not parse.
  unfoldable pub handle_create_match :
      (id : Option String) (pick : Pick) (image : Option String)
      → Option CreateMatchRequest
      → List MatchRow
      → Made
  handle_create_match id pick image none rows = refused 400 rows
  handle_create_match id pick image (some q) rows =
      if str_eq q.p0_steamid "" || str_eq q.p1_steamid ""
      then refused 400 rows
      else with_id id pick image q rows
