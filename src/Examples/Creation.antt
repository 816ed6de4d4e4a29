-- ===== src/Examples/Creation.antt =====
-- The life of a match: two requests for one on an agent with two ports, the agent's work, and the
-- image that it runs.
use mathlib.Core.List.Perm
use mr1v.Base.{ℕ, true, some, ◌≡◌, refl, false, List, [], ◌∷◌, ◌++◌, String}
use mr1v.Js.Num.{ℤ, pos}
use mr1v.Js.Text.{codes}
use mr1v.Js.Dict.{get}
use mr1v.Server.Scheduler.{AgentRow, picked}
use mr1v.Server.Consumer
use mr1v.Server.Consumer.{update, affects}
use mr1v.Server.Status.{report, running, stopped, any_state, on_status}
use mr1v.Server.Creation.{
  MatchRow, CreateMatchRequest, CreateCommand, Made, fail, handle_create_match,
}
use mr1v.Server.Creation.Ports.{served}
use mr1v.Server.Agent.{Tracked, reported, create_match, teardown_match, teardown_match-create_match}
use mr1v.Server.Timeouts.Later.{Later, reports, sweeps, told_later, is_told}
use mr1v.Server.Agent.Untold.{read_report, create_match-on_status}
use mr1v.Server.Images.{
  ConfigRow, active_rehlds_image, done, handle_activate, handle_activate-active_rehlds_image,
}

abbrev agents : List AgentRow
agents =
    record {
      uuid = "a1";
      public_ip = "1.2.3.4";
      status = "enabled";
      heartbeat_at = 100;
      rehlds_run_max = 2;
      rehlds_port_range = codes "27015-27016";
      version = codes "0.1.8";
    }
    ∷ []

abbrev only_agent : String
only_agent = "a1"

abbrev wanted : CreateMatchRequest
wanted = record {
  p0_steamid = "STEAM_0:0:1";
  p1_steamid = "STEAM_0:0:2";
  server_name = "";
  category = "rifle";
  map_name = "";
  bot_test_mode = false;
}

-- Shuffles that keep the order and that swap the first two.
abbrev unshuffled : List ℤ → List ℤ
unshuffled xs = xs

abbrev swapped : List ℤ → List ℤ
swapped [] = []
swapped (p ∷ []) = p ∷ []
swapped (p ∷ q ∷ ps) = q ∷ p ∷ ps

abbrev any_map : String → String
any_map category = "aim_map"

abbrev serve : (List ℤ → List ℤ) → String → List MatchRow → List MatchRow → Made
serve shuffle id seen rows = served any_map agents 110 0 "mr1v1" shuffle id wanted seen rows

abbrev duel : CreateCommand
duel = record {
  match_id = "m1";
  server_name = codes "duel";
  port = pos 27015;
  p0_steamid = "STEAM_0:0:1";
  p1_steamid = "STEAM_0:0:2";
  image = "";
  map_name = "aim_map";
  bot_test_mode = false;
}

abbrev other_match : Tracked
other_match = ("m0", record { port = pos 27016; rcon_password = "secret" }) ∷ []

teardown_match-create_match_example :
    let made = create_match "mr1v1" (some "pw") true duel other_match in
    let ended = teardown_match true "m1" false made.tracked in
    (made.report ≡ reported "m1" (pos 27015) running)
    × (ended.report ≡ reported "m1" (pos 27015) stopped)
    × (ended.tracked ≡ other_match)
unfolding get
teardown_match-create_match_example =
    teardown_match-create_match "mr1v1" "pw" false duel other_match refl refl

abbrev creating_rows : List Consumer.MatchRow
creating_rows =
    record { match_id = "m0"; state = "creating" }
    ∷ record { match_id = "m1"; state = "creating" }
    ∷ []

-- The agent removes what is left, another match's container runs, and a round of the sweep.
abbrev later : List Later
later =
    reports true (report "m1" stopped)
    ∷ reports true (report "m0" running)
    ∷ sweeps (λ r. true) (λ k. true) (λ k. true)
    ∷ []

create_match-on_status_example :
    let made = create_match "mr1v1" (some "pw") false duel other_match in
    let after = on_status true (read_report made.report) creating_rows in
    (after.matches ≡ update "m1" any_state "error" creating_rows)
    × (after.ended ≡ [])
    × (is_told "m1" (told_later later after.matches) ≡ false)
create_match-on_status_example =
    create_match-on_status "mr1v1" (some "pw") duel other_match creating_rows later
      (refl, (refl, (refl, tt)))

abbrev config : ℕ → String → ConfigRow
config id image = record { id = id; image = image; version = ""; is_active = false }

handle_activate-active_rehlds_image_example :
    let rows = (config 1 "old" ∷ []) ++ (config 2 "new" ∷ []) in
    let known = handle_activate true true 2 rows in
    let lost = handle_activate true true 9 rows in
    (active_rehlds_image known.1 ≡ some "new")
    × (lost.0 ≡ done)
    × ((handle_create_match any_map true true
          (some "m1")
          (picked "a1" "1.2.3.4" (pos 27015))
          (active_rehlds_image lost.1)
          (some wanted)
          []).reply
        ≡ fail 503)
handle_activate-active_rehlds_image_example =
    handle_activate-active_rehlds_image (config 2 "new") (config 1 "old" ∷ []) [] 9 any_map true
      true "m1" (picked "a1" "1.2.3.4" (pos 27015)) wanted [] refl refl refl (refl, refl)
