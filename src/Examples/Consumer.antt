-- ===== src/Examples/Consumer.antt =====
-- The statements on the consumer, on one match whose end is reported twice.
use mr1v.Base.{ℕ, ◌≤◌, Bool, true, some, List, [], ◌∷◌}
use mr1v.Server.Consumer.{MatchEnd, Tables, Envelope, match_start, match_end, affects, on_messages}
use mr1v.Server.Consumer.Once.{times_ended, on_messages-once}

abbrev the_end : MatchEnd
the_end = record { match_id = "m1"; wins0 = 10; wins1 = 7; columns = [] }

abbrev one_match : Tables
one_match = record {
  matches = record { match_id = "m1"; state = "playing" } ∷ [];
  match_starts = [];
  round_ends = [];
  match_ends = [];
  batches = [];
  logs = [];
}

abbrev all_succeed : ℕ → Bool
all_succeed n = true

abbrev end_twice : List ((ℕ → Bool) × Envelope)
end_twice = (all_succeed, match_end (some the_end)) ∷ (all_succeed, match_end (some the_end)) ∷ []

abbrev started : Envelope
started = match_start (some (record { match_id = "m1"; columns = [] }))

on_messages-once_example : times_ended "m1" (on_messages end_twice one_match).1 ≤ 1
unfolding affects
on_messages-once_example = on_messages-once "m1" end_twice one_match
