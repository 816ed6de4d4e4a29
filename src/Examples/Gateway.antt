-- ===== src/Examples/Gateway.antt =====
-- The queue of the gateway with room for one envelope.
use mr1v.Base.{
  ◌≤◌, ◌≡◌, Option, none, some, if◌then◌else◌, str_eq, List, [], ◌∷◌, ◌++◌, String, length,
}
use mr1v.Js.Num.{pos}
use mr1v.Server.Gateway.{Envelope, Event, records, publishes, start, run, messages, run-IsOrdered}

abbrev envelope : String → Envelope
envelope s = record { match_id = "m1"; event_type = s; body = "{}" }

abbrev events : List Event
events =
    records (some (envelope "mr1v1_match_start"))
    ∷ records (some (envelope "mr1v1_round_end"))
    ∷ publishes
    ∷ records (some (envelope "mr1v1_match_end"))
    ∷ []

-- What has no body cannot be marshalled.
abbrev marshalled : Envelope → Option String
marshalled e = if str_eq e.body "" then none else some e.event_type

run-IsOrdered_example :
    let w = run marshalled "mr1v1" events (start (pos 1)) in
    (w.sent ++ messages marshalled "mr1v1" w.gateway.queue ≡ messages marshalled "mr1v1" w.accepted)
    × (length w.gateway.queue ≤ 1)
run-IsOrdered_example = run-IsOrdered marshalled "mr1v1" (pos 1) events
