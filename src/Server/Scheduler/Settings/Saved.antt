-- ===== src/Server/Scheduler/Settings/Saved.antt =====
-- pages/AgentsPage.tsx with internal/backend/backend.go: a setting from the dialog to the port of a match.
use mr1v.Base.{
  ℕ, ◌≤◌, ◌<◌, ◌≡◌, sym, ap, subst, ◌∙◌, true, false, some, some_inj, List, [], ◌∷◌, In, String,
  eq_iff, true≢false, Bool-cases, inl, inr, if◌then◌else◌, arith, ◌==◌,
}
use mr1v.Js.Num.{ℤ, pos, nat}
use mr1v.Console.Agents.Ports.{range, serialize_port_range}
use mr1v.Console.Agents.Page.{Agent, Page, FormValues, AgentPatch, patch, handle_save, or_zero}
use mr1v.Console.Agents.Page.Save.{IsForm, Saveable, save_iff}
use mr1v.Server.Scheduler.{
  AgentRow, Database, scan_range, all_ports, is_busy, busy_count, is_candidate, picked,
  pick_agent_port,
}
use mr1v.Server.Scheduler.Choice.{Shuffles, Answers}
use mr1v.Server.Scheduler.Choice.Sound.{pick_agent_port-IsChoice}
use mr1v.Server.Scheduler.Dialog.{saved_range-scheduled}
use mr1v.Server.Scheduler.Settings.{
  decoded, sent_number, or_old, updated_agent, is_agent, handle_update_agent,
}

-- The body that `handleSave` sends.
abbrev pub sent_body : FormValues → Page → AgentPatch
sent_body v p = record {
  status = v.status;
  rehlds_run_max = v.rehlds_run_max;
  rehlds_port_range = serialize_port_range p.port_mode p.port_start p.port_end (some p.port_list);
}

-- The rows of the agent have the settings that were stored.
stored :
    (uuid : String) (b : AgentPatch) (r : ℕ) (rows : List AgentRow) (c : AgentRow)
    → sent_number b.rehlds_run_max ≡ some r
    → In c (handle_update_agent true uuid (some (decoded b)) rows).1
    → c.uuid ≡ uuid
    → (c.status ≡ b.status) × (c.rehlds_run_max ≡ r) × (c.rehlds_port_range ≡ b.rehlds_port_range)
unfolding handle_update_agent
stored uuid b r [] c n i e = absurd i
stored uuid b r (a ∷ rows) c n (inl same) e = elim (Bool-cases (is_agent uuid a)) [
  | inl hit ↦
      let h : c ≡ updated_agent (decoded b) a = rw hit at same in
      (
        ap (λ x. x.status) h,
        ap (λ x. x.rehlds_run_max) h ∙ ap (λ o. or_old o a.rehlds_run_max) n,
        ap (λ x. x.rehlds_port_range) h,
      )
  | inr miss ↦
      let h : c ≡ a = rw miss at same in
      absurd (true≢false (sym ((eq_iff a.uuid uuid).1 (sym (ap (λ x. x.uuid) h) ∙ e)) ∙ miss))
]
stored uuid b r (a ∷ rows) c n (inr i) e = stored uuid b r rows c n i e

candidate_enabled :
    (now stale : ℕ) (c : AgentRow) → is_candidate now stale c ≡ true → c.status ≡ "enabled"
unfolding is_candidate
candidate_enabled now stale c e = (eq_iff c.status "enabled").0 (ground (arith, e))

-- The setting with which a match was placed: its port lies in the range and is not busy, and the agent
-- is enabled and has fewer busy ports than it may run matches.
pub record IsPlaced (db : Database) (uuid status : String) (r s e : ℕ) (port : ℤ) : Type 0 where
  pub enabled : status ≡ "enabled"
  pub busy : List ℤ
  pub asked : db.busy_ports uuid ≡ some busy
  pub in_range : ∥ In port (all_ports (pos s) (pos e)) ∥₁
  pub unused : is_busy busy port ≡ false
  pub room : busy_count busy < r

-- A range that the dialog saved rules the next matches: once the backend has stored what was sent, and
-- as long as Go's shuffle permutes and no query for busy ports fails, an agent that is picked was
-- saved as enabled, the port lies between the two ends of the dialog and is not busy, and the agent
-- has fewer busy ports than the number of matches in the dialog.
pub handle_save-pick_agent_port :
    (shuffle : List ℤ → List ℤ) (db : Database) (now stale : ℕ) (rows : List AgentRow) (a : Agent)
    (v : FormValues) (p : Page) (r s e : ℕ) (ip : String) (port : ℤ)
    → Shuffles shuffle
    → Answers db
    → IsForm p
    → p.edit_target ≡ some a
    → v.rehlds_run_max ≡ some (nat r)
    → p.port_mode ≡ range
    → p.port_start ≡ some (nat s)
    → p.port_end ≡ some (nat e)
    → e ≤ 65535
    → handle_save (some v) p ≡ patch a.uuid (sent_body v p)
    → db.agents ≡ some (handle_update_agent true a.uuid (some (decoded (sent_body v p))) rows).1
    → pick_agent_port shuffle db now stale ≡ picked a.uuid ip port
    → IsPlaced db a.uuid v.status r s e port
handle_save-pick_agent_port shuffle db now stale rows a v p r s e ip port permutes answers form
      edits number mode start end small sent stored_rows chosen =
    let ready : Saveable r range (some (nat s)) (some (nat e)) p.port_list =
      rw (mode, start, end) at ((save_iff a v p r form edits (ap or_zero number)).0 sent) in
    let text : scan_range (sent_body v p).rehlds_port_range ≡ some (pos s, pos e) =
      rw (mode, start, end) (saved_range-scheduled r s e p.port_list ready small).0 in
    let after = (handle_update_agent true a.uuid (some (decoded (sent_body v p))) rows).1 in
    let c =
      pick_agent_port-IsChoice shuffle db permutes answers now stale after a.uuid ip port
        stored_rows chosen in
    let (on, number_kept, text_kept) =
      stored a.uuid (sent_body v p) r rows c.agent (ap sent_number number) c.listed c.same_uuid in
    let ends : (pos s, pos e) ≡ (c.start, c.end) =
      some_inj.0 (sym text ∙ ap scan_range (sym text_kept) ∙ c.reads) in
    record {
      enabled =
          sym on ∙ candidate_enabled now (if stale == 0 then 30 else stale) c.agent c.candidate;
      busy = c.busy;
      asked = ap db.busy_ports (sym c.same_uuid) ∙ c.asked;
      in_range = subst (λ (q : ℤ × ℤ). ∥ In port (all_ports q.0 q.1) ∥₁) (sym ends) c.in_range;
      unused = c.unused;
      room = subst (λ m. busy_count c.busy < m) number_kept c.room;
    }
