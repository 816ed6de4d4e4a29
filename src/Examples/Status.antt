-- ===== src/Examples/Status.antt =====
-- The statements on an agent's reports, on a match that is finished.
use mr1v.Base.{◌≡◌, refl, true, some, List, [], ◌∷◌}
use mr1v.Server.Consumer.{
  MatchRow, MatchEnd, Tables, match_end, round_update, match_ended, is_unfinished, affects, handle,
}
use mr1v.Server.Status.{running, report, on_status, on_status-running}

abbrev rows : List MatchRow
rows =
    record { match_id = "m1"; state = "finished" }
    ∷ record { match_id = "m2"; state = "playing" }
    ∷ []

abbrev tables : Tables
tables = record {
  matches = rows;
  match_starts = [];
  round_ends = [];
  match_ends = [];
  batches = [];
  logs = [];
}

abbrev the_end : MatchEnd
the_end = record { match_id = "m1"; wins0 = 10; wins1 = 7; columns = [] }

on_status-running_example :
    (affects "m1" is_unfinished (on_status true (report "m1" running) rows).matches ≡ true)
    × ((handle
          (λ n. true)
          (match_end (some the_end))
          (record tables { matches = (on_status true (report "m1" running) rows).matches })).told
        ≡ round_update "m1" 10 7 ∷ match_ended "m1" ∷ [])
unfolding affects
on_status-running_example = on_status-running the_end tables refl
