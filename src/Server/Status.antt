-- ===== src/Server/Status.antt =====
-- internal/backend/backend.go: `onStatus`, what an agent's report of a container does to its match,
-- beside what the consumer does to it.
use mr1v.Base.{
  ◌≡◌, refl, ◌∙◌, Bool, true, false, not, ◌&&◌, ◌||◌, some, List, [], ◌∷◌, String, str_eq,
  if◌then◌else◌, arith, Bool-cases, inl, inr,
}
use mr1v.Server.Consumer.{
  MatchRow, MatchEnd, Tables, match_end, told_end, hits, set_state, update, affects, is_unfinished,
  handle,
}

-- `StatusReport.State`.
pub data ContainerState : Type 0 where
  running error stopped other_state : ContainerState

pub record StatusReport : Type 0 where
  pub match_id : String
  pub state : ContainerState

-- The rows of manager_matches after a report, and the matches whose end is told to the rooms' service.
pub record Reacted : Type 0 where
  pub matches : List MatchRow
  pub ended : List String

abbrev pub any_state : String → Bool
any_state s = true

abbrev pub is_live : String → Bool
is_live s =
    not (str_eq s "finished" || str_eq s "terminated" || str_eq s "timeout" || str_eq s "error")

abbrev pub is_finished : String → Bool
is_finished s = str_eq s "finished"

-- `ok` says whether the statement succeeds.
abbrev pub reacted : Bool → StatusReport → ContainerState → List MatchRow → Reacted
reacted ok r running rows = record {
  matches = if ok then update r.match_id any_state "waiting" rows else rows;
  ended = [];
}
reacted ok r error rows = record {
  matches = if ok then update r.match_id any_state "error" rows else rows;
  ended = [];
}
reacted ok r stopped rows = record {
  matches = if ok then update r.match_id is_live "error" rows else rows;
  ended = if ok && affects r.match_id is_live rows then r.match_id ∷ [] else [];
}
reacted ok r other_state rows = record { matches = rows; ended = [] }

unfoldable pub on_status : Bool → StatusReport → List MatchRow → Reacted
on_status ok r rows = reacted ok r r.state rows

abbrev pub report : String → ContainerState → StatusReport
report id s = record { match_id = id; state = s }

row-stopped :
    (id : String) (r : MatchRow) → hits id is_live (set_state id is_live "error" r) ≡ false
row-stopped id r = elim (Bool-cases (hits id is_live r)) [
  | inl e ↦ rw e (ground arith)
  | inr e ↦ rw e e
]

row-stopped_finished :
    (id k : String) (r : MatchRow)
    → hits k is_finished (set_state id is_live "error" r) ≡ hits k is_finished r
row-stopped_finished id k r = elim (Bool-cases (hits id is_live r)) [
  | inl e ↦ rw e ground (arith, e)
  | inr e ↦ rw e refl
]

update-stopped :
    (id : String) (rows : List MatchRow)
    → affects id is_live (update id is_live "error" rows) ≡ false
unfolding affects update
update-stopped id [] = refl
update-stopped id (r ∷ rows) = rw (row-stopped id r, update-stopped id rows) refl

update-stopped_finished :
    (id k : String) (rows : List MatchRow)
    → affects k is_finished (update id is_live "error" rows) ≡ affects k is_finished rows
unfolding affects update
update-stopped_finished id k [] = refl
update-stopped_finished id k (r ∷ rows) =
    rw (row-stopped_finished id k r, update-stopped_finished id k rows) refl

-- The report that a container stopped, once its statement succeeds, leaves no row of the match that
-- is neither finished, terminated, timed out nor in error; it makes and unmakes no finished match;
-- and the same report once more tells nothing.
pub on_status-stopped :
    (again : Bool) (id k : String) (rows : List MatchRow)
    → let after = (on_status true (report id stopped) rows).matches in
      (affects id is_live after ≡ false)
      × (affects k is_finished after ≡ affects k is_finished rows)
      × ((on_status again (report id stopped) after).ended ≡ [])
unfolding on_status
on_status-stopped again id k rows = (
  update-stopped id rows,
  update-stopped_finished id k rows,
  rw (update-stopped id rows) (ground arith),
)

row-running :
    (id : String) (r : MatchRow)
    → hits id is_unfinished (set_state id any_state "waiting" r) ≡ hits id any_state r
row-running id r = elim (Bool-cases (hits id any_state r)) [
  | inl e ↦ rw e ground (arith, e)
  | inr e ↦ rw e ground (arith, e)
]

update-running :
    (id : String) (rows : List MatchRow)
    → affects id is_unfinished (update id any_state "waiting" rows) ≡ affects id any_state rows
unfolding affects update
update-running id [] = refl
update-running id (r ∷ rows) = rw (row-running id r, update-running id rows) refl

-- The report that a container runs opens its match again, whatever state it had: if it comes late,
-- after the match ended, the next message of the end, a repeated one included, is told to the
-- rooms' service once more.
pub on_status-running :
    (d : MatchEnd) (t : Tables)
    → affects d.match_id any_state t.matches ≡ true
    → let opened = (on_status true (report d.match_id running) t.matches).matches in
      (affects d.match_id is_unfinished opened ≡ true)
      × ((handle (λ n. true) (match_end (some d)) (record t { matches = opened })).told
          ≡ told_end d true)
unfolding on_status handle
on_status-running d t h =
    let opened = update-running d.match_id t.matches ∙ h in (opened, rw opened refl)
