-- ===== src/Server/Agent/Untold.antt =====
-- internal/agent/agent.go and internal/backend/backend.go: a container that cannot be started, and
-- who hears of it.
use mr1v.Base.{
  ◌≡◌, refl, true, false, Bool-cases, inl, inr, Option, none, some, List, [], All, String, str_eq,
}
use mr1v.Server.Consumer.{MatchRow, update}
use mr1v.Server.Status.{StatusReport, error, any_state, report, on_status}
use mr1v.Server.Timeouts.Later.{
  Later, not_started, told_later, is_told, update-error, told_later-IsOver,
}
use mr1v.Server.Creation.{CreateCommand}
use mr1v.Server.Agent.{Tracked, Report, image_of, reported, create_match}

-- A report of the agent's as the backend reads it.
abbrev pub read_report : Report → StatusReport
read_report r = report r.match_id r.state

create_match-fails :
    (default_image : String) (password : Option String) (c : CreateCommand) (d : Tracked)
    → (create_match default_image password false c d).report ≡ reported c.match_id c.port error
unfolding create_match
create_match-fails default_image none c d =
    elim (Bool-cases (str_eq (image_of default_image c.image) "")) [
      | inl e ↦ rw e refl
      | inr e ↦ rw e refl
    ]
create_match-fails default_image (some p) c d =
    elim (Bool-cases (str_eq (image_of default_image c.image) "")) [
      | inl e ↦ rw e refl
      | inr e ↦ rw e refl
    ]

-- When the container of a match cannot be started and the statement of the report of it succeeds, the
-- match is in "error" and the rooms' service hears nothing of it, neither then nor from any later
-- reports and rounds of the sweep, as long as none reports that the match's container runs.
pub create_match-on_status :
    (default_image : String) (password : Option String) (c : CreateCommand) (d : Tracked)
    (rows : List MatchRow) (ls : List Later)
    → All (λ l. not_started c.match_id l ≡ true) ls
    → let made = create_match default_image password false c d in
      let after = on_status true (read_report made.report) rows in
      (after.matches ≡ update c.match_id any_state "error" rows)
      × (after.ended ≡ [])
      × (is_told c.match_id (told_later ls after.matches) ≡ false)
unfolding on_status
create_match-on_status default_image password c d rows ls quiet =
    rw (create_match-fails default_image password c d) (
      refl,
      refl,
      told_later-IsOver c.match_id ls (update c.match_id any_state "error" rows) quiet
          (update-error c.match_id rows),
    )
