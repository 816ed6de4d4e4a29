-- ===== src/Examples/Drawn.antt =====
-- The pages of the console at concrete lists.
use mr1v.Base.{Bool, str_eq, true, false, some, [], ◌∷◌, String, All, In, select}
use mr1v.Js.Num.{nat}
use mr1v.Js.Text.{codes}
use mr1v.Console.View.{drawn_offers}
use mr1v.Console.Agents.Ports.{range}
use mr1v.Console.Agents.Page.{Agent, Page, FormValues, initial}
use mr1v.Console.Matches.{Match}
use mr1v.Console.Matches.Page.{Page as MatchesPage, initial as no_matches}
use mr1v.Console.Matches.Views.{has_actions}
use mr1v.Console.Matches.Table.{end_confirmed, destroy_confirmed, view, page_offers}
use mr1v.Console.Matches.Table.Offers.{AsksFor, matches_view-AsksFor}
use mr1v.Console.Users.{WxUser}
use mr1v.Console.Users
use mr1v.Console.Users.View
use mr1v.Console.Users.View.{users_view-AsksFor}

abbrev match_in : String → String → Match
match_in id state = record {
  match_id = id;
  p0_steamid = "STEAM_0:0:1";
  p1_steamid = "STEAM_0:0:2";
  server_name = "duel";
  agent_uuid = "a1";
  port = 27015;
  image = "mr1v1";
  map_name = "";
  state = state;
  created_at = "2026-01-01";
  updated_at = "2026-01-01";
}

-- A match that is played and one that is over, with the dialog for a new one open.
abbrev two_matches : MatchesPage
two_matches = record no_matches {
  matches = match_in "m1" "playing" ∷ match_in "m2" "finished" ∷ [];
  create_open = true;
}

-- The row of the first match is expanded.
abbrev first_open : String → Bool
first_open id = str_eq id "m1"

matches_view-AsksFor_example :
    All (AsksFor two_matches) (page_offers (view codes first_open two_matches))
    × All
        (λ r.
          In (end_confirmed r.match_id) (page_offers (view codes first_open two_matches))
          × In (destroy_confirmed r.match_id) (page_offers (view codes first_open two_matches)))
        (select has_actions two_matches.matches)
matches_view-AsksFor_example = matches_view-AsksFor codes first_open two_matches

abbrev user_with : String → String → WxUser
user_with openid status = record {
  openid = openid;
  steam_id = "";
  nickname = "anna";
  avatar_url = "";
  status = status;
  created_at = "2026-01-01";
  updated_at = "2026-01-01";
}

-- A player who may play and one who may not, who is being edited.
abbrev two_users : Users.Page
two_users = record {
  users = record {
    rows = user_with "o1" "enabled" ∷ user_with "o2" "disabled" ∷ [];
    loading = false;
  };
  editing = some (user_with "o2" "disabled");
}

users_view-AsksFor_example :
    All (Users.View.AsksFor two_users) (drawn_offers (Users.View.view codes two_users))
users_view-AsksFor_example = users_view-AsksFor codes two_users

abbrev small_agent : Agent
small_agent = record {
  uuid = "a1";
  hostname = "h";
  public_ip = "1.2.3.4";
  local_ip = "10.0.0.1";
  cpu = "8";
  mem_mb = 16000;
  disk_gb = 100;
  status = "enabled";
  rehlds_run_max = nat 4;
  rehlds_port_range = codes "27015-27016";
  running_containers = [];
  version = codes "1.0";
  created_at = "";
  updated_at = "";
  heartbeat_at = "";
}

-- Two ports for four instances.
abbrev edited : Page
edited = record initial {
  edit_target = some small_agent;
  port_mode = range;
  port_start = some (nat 27015);
  port_end = some (nat 27016);
}

abbrev four : FormValues
four = record { status = "enabled"; rehlds_run_max = some (nat 4) }
