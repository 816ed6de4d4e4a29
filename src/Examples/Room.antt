-- ===== src/Examples/Room.antt =====
-- The statements on the hub of a room, on a creator and a joiner.
use mr1v.Base.{◌≡◌, refl, true, false, none, some, [], ◌∷◌}
use mr1v.Server.Room.{
  creator, joiner, Client, Hub, new_hub, Task, connect, read, confirm, connect_client,
}
use mr1v.Server.Room.Steps.{
  handle_confirm, handle_kick_joiner, read_message, run, alone, Room, start, Begins, connects,
  sends, begins, runs, running_on, Reach, here, next,
}
use mr1v.Server.Room.OneMatch.{matches_made, in_flight, Reach-one_match}
use mr1v.Server.Room.Leave.{vacated, with_joiner, vacated-handle_confirm}
use mr1v.Server.Room.Again.{paired, made, confirm-confirm}

abbrev anna : Client
anna = record {
  conn = 1;
  openid = "o-anna";
  name = "Anna";
  avatar = "anna.png";
  steam_id = "STEAM_0:0:11";
  role = creator;
}

abbrev ben : Client
ben = record {
  conn = 2;
  openid = "o-ben";
  name = "Ben";
  avatar = "ben.png";
  steam_id = "STEAM_0:1:22";
  role = joiner;
}

abbrev anna_again : Client
anna_again = record anna { conn = 3 }

-- A goroutine begins and runs its first task at once.
abbrev doing : Task → Room → Room
doing t r = running_on (run none t r.hub) [] [] r.running

doing-Reach : {r : Room} (t : Task) → Begins t → Reach r → Reach (doing t r)
doing-Reach {r} t b reached = next (next reached (begins t b)) (runs none t [] [] r.running refl)

abbrev both_confirmed : Room
both_confirmed =
    doing (read ben confirm)
      (doing (read anna confirm) (doing (connect ben) (doing (connect anna) start)))

both_confirmed-Reach : Reach both_confirmed
both_confirmed-Reach = doing-Reach (read ben confirm) (sends ben confirm) (
    doing-Reach (read anna confirm) (sends anna confirm)
      (doing-Reach (connect ben) (connects ben) (doing-Reach (connect anna) (connects anna) here)))

Reach-one_match_example : in_flight both_confirmed.running ≡ 1
unfolding run connect_client read_message handle_confirm
Reach-one_match_example = Reach-one_match both_confirmed both_confirmed-Reach

abbrev with_anna : Hub
with_anna = record new_hub { slot_0 = some (record { client = anna; confirmed = true }) }

vacated-handle_confirm_example :
    ((handle_kick_joiner (with_joiner ben true with_anna)).hub
      ≡ vacated (with_joiner ben true with_anna))
    × (matches_made
          (handle_confirm ben
            (connect_client ben (vacated (with_joiner ben true with_anna))).hub).rest
        ≡ 0)
vacated-handle_confirm_example = vacated-handle_confirm ben (with_joiner ben true with_anna) refl

confirm-confirm_example :
    (alone 7
        (some ("m1", "10.0.0.1:27015"))
        (read anna confirm ∷ [])
        (paired anna ben false true new_hub)
      ≡ some (
        record (paired anna ben true true new_hub) {
          is_matched = true;
          match_id = "m1";
          server_addr = "10.0.0.1:27015";
        },
        made anna ben "m1" "10.0.0.1:27015",
      ))
    × (alone 7
          (some ("m2", "10.0.0.1:27016"))
          (read anna confirm ∷ [])
          (record (paired anna ben true true new_hub) {
            is_matched = true;
            match_id = "m1";
            server_addr = "10.0.0.1:27015";
          })
        ≡ some (
          record (paired anna ben true true new_hub) {
            is_matched = true;
            match_id = "m2";
            server_addr = "10.0.0.1:27016";
          },
          made anna ben "m2" "10.0.0.1:27016",
        ))
confirm-confirm_example =
    confirm-confirm anna ben false "m1" "10.0.0.1:27015" "m2" "10.0.0.1:27016" new_hub 0
