-- ===== src/Server/Scheduler/Choice/Sound.antt =====
-- `pickAgentPort` returns a free port of an agent that may take the match.
use mathlib.Core.Logic.{∥∥₁_map, ∥∥₁_elim}
use mathlib.Core.Logic.Or
use mathlib.Core.List.{Mem, mem-cons, not-mem-nil}
use mathlib.Core.List.Perm
use mr1v.Base.{
  none≢some, ℕ, ◌<◌, ◌≡◌, refl, sym, ◌∙◌, ap, subst, ◌⊎◌, inl, inr, Bool, true, false, not,
  Bool-cases, none, some, List, [], ◌∷◌, All-In, In, In-select, select, String, if◌then◌else◌, ◌==◌,
}
use mr1v.Js.Num.{ℤ}
use mr1v.Js.Text.{Text, text_eq, text_eq_iff, is_empty}
use mr1v.Server.Scheduler.{
  offered, AgentRow, Database, Offer, consider, is_busy, busy_count, all_ports, scan_range, picked,
  pick_agent_port, is_candidate, latest_version, on_latest, first_port, from_rows, among,
}
use mr1v.Server.Scheduler.Choice.{IsOffer, consider-offered, Shuffles, Answers, choose-picked}

pub Mem-In : (x : ℤ) (xs : List ℤ) → Mem x xs → ∥ In x xs ∥₁
Mem-In x [] m = absurd (not-mem-nil m)
Mem-In x (y ∷ ys) m =
    Or.elim squash₁ (mem-cons.0 m) (λ e. ∣ inl e ∣₁) (λ k. ∥∥₁_map (Mem-In x ys k) inr)

pub record IsFirst (o : Offer) (xs : List ℤ) (uuid ip : String) (port : ℤ) : Type 0 where
  pub rest : List ℤ
  pub split_at : xs ≡ port ∷ rest
  pub same_uuid : o.uuid ≡ uuid
  pub same_ip : o.public_ip ≡ ip

pub picked-inj :
    {u v i j : String} {p q : ℤ} → picked u i p ≡ picked v j q → (u ≡ v) × (i ≡ j) × (p ≡ q)
picked-inj e = (cc, cc, cc)

pub first_port-picked :
    (o : Offer) (xs : List ℤ) (uuid ip : String) (port : ℤ)
    → first_port o xs ≡ picked uuid ip port
    → IsFirst o xs uuid ip port
first_port-picked o [] uuid ip port e = cc
first_port-picked o (p ∷ ps) uuid ip port e =
    let (a, b, c) = picked-inj e in
    record { rest = ps; split_at = ap (λ q. q ∷ ps) c; same_uuid = a; same_ip = b }

nothing : (s : Text) → is_empty s ≡ true → s ≡ []
nothing [] h = refl
nothing (c ∷ s) h = cc

-- Only agents of the latest version stay, unless no candidate reports a version.
In-on_latest :
    (c : AgentRow) (cs : List AgentRow)
    → In c (on_latest cs)
    → In c cs × ((latest_version [] cs ≡ []) ⊎ (c.version ≡ latest_version [] cs))
unfolding on_latest
In-on_latest c cs i = elim (Bool-cases (is_empty (latest_version [] cs))) [
  | inl none_known ↦
      (rw (none_known, on_latest) at i, inl (nothing (latest_version [] cs) none_known))
  | inr known ↦
      let (j, e) =
        In-select (λ d. text_eq d.version (latest_version [] cs)) c cs
          (rw (known, on_latest) at i) in
      (j, inr ((text_eq_iff _ _).0 e))
]

-- The chosen agent is enabled, alive, initialised and of the latest version; the port lies in its
-- range and is used by none of its matches, of which it has fewer than it may run.
pub record IsChoice (db : Database) (now stale : ℕ) (rows : List AgentRow) (uuid ip : String)
    (port : ℤ) : Type 0 where
  pub agent : AgentRow
  pub listed : In agent rows
  pub candidate : is_candidate now stale agent ≡ true
  pub latest :
      (latest_version [] (select (is_candidate now stale) rows) ≡ [])
      ⊎ (agent.version ≡ latest_version [] (select (is_candidate now stale) rows))
  pub same_uuid : agent.uuid ≡ uuid
  pub same_ip : agent.public_ip ≡ ip
  pub busy : List ℤ
  pub start : ℤ
  pub end : ℤ
  pub reads : scan_range agent.rehlds_port_range ≡ some (start, end)
  pub asked : db.busy_ports agent.uuid ≡ some busy
  pub in_range : ∥ In port (all_ports start end) ∥₁
  pub unused : is_busy busy port ≡ false
  pub room : busy_count busy < agent.rehlds_run_max

negated : (b : Bool) → not b ≡ true → b ≡ false
negated false h = refl
negated true h = cc

free_port :
    (busy ports : List ℤ) (port : ℤ)
    → Mem port (select (λ p. not (is_busy busy p)) ports)
    → ∥ In port ports ∥₁ × (is_busy busy port ≡ false)
free_port busy ports port m =
    let kept = Mem-In port (select (λ p. not (is_busy busy p)) ports) m in
    let both = λ (i : In port (select (λ p. not (is_busy busy p)) ports)).
      In-select (λ p. not (is_busy busy p)) port ports i in
    (
      ∥∥₁_map kept (λ i. (both i).0),
      ∥∥₁_elim kept (hlevel) (λ i. negated (is_busy busy port) (both i).1),
    )

module _ (shuffle : List ℤ → List ℤ) (db : Database) (permutes : Shuffles shuffle)
    (answers : Answers db) where
  offer-IsChoice :
      (now stale : ℕ) (rows : List AgentRow) (o : Offer) (uuid ip : String) (port : ℤ)
      → IsOffer db (on_latest (select (is_candidate now stale) rows)) o
      → first_port o (shuffle o.available) ≡ picked uuid ip port
      → IsChoice db now stale rows uuid ip port
  offer-IsChoice now stale rows o uuid ip port f e =
      let cands : List AgentRow = select (is_candidate now stale) rows in
      let first = first_port-picked o (shuffle o.available) uuid ip port e in
      let (there, newest) = In-on_latest f.agent cands f.listed in
      let (listed, alive) = In-select (is_candidate now stale) f.agent rows there in
      let here : Mem port (shuffle o.available) = rw first.split_at (mem-cons.1 (Or.inl refl)) in
      let before : Mem port o.available = (Perm.mem_iff (permutes o.available)).0 here in
      let (inside, unused) =
        free_port f.busy (all_ports f.start f.end) port (rw f.free at before) in
      record {
        agent = f.agent;
        listed = listed;
        candidate = alive;
        latest = newest;
        same_uuid = sym f.same_uuid ∙ first.same_uuid;
        same_ip = sym f.same_ip ∙ first.same_ip;
        busy = f.busy;
        start = f.start;
        end = f.end;
        reads = f.reads;
        asked = f.asked;
        in_range = inside;
        unused = unused;
        room = f.room;
      }

  among-picked :
      (cs : List AgentRow) (uuid ip : String) (port : ℤ)
      → among shuffle db cs ≡ picked uuid ip port
      → (o : Offer) × IsOffer db cs o × (first_port o (shuffle o.available) ≡ picked uuid ip port)
  among-picked [] uuid ip port e = cc
  among-picked (c ∷ cs) uuid ip port e =
      choose-picked shuffle db (IsOffer db (c ∷ cs)) (c ∷ cs) none uuid ip port
        (λ b z. absurd (none≢some z))
        (All-In (λ d. (o : Offer) → consider db d ≡ offered o → IsOffer db (c ∷ cs) o) (c ∷ cs)
          (λ d i o q. consider-offered db (c ∷ cs) d o i q))
        answers e

  from_rows-picked :
      (now stale : ℕ) (rows : List AgentRow) (cs : List AgentRow) (uuid ip : String) (port : ℤ)
      → cs ≡ select (is_candidate now stale) rows
      → from_rows shuffle db cs ≡ picked uuid ip port
      → IsChoice db now stale rows uuid ip port
  from_rows-picked now stale rows [] uuid ip port same e = cc
  from_rows-picked now stale rows (c ∷ cs) uuid ip port same e =
      let (o, f, g) = among-picked (on_latest (c ∷ cs)) uuid ip port e in
      offer-IsChoice now stale rows o uuid ip port
        (subst (λ ds. IsOffer db (on_latest ds) o) same f) g

  -- If Go's shuffle permutes and no query for busy ports fails, then an agent and a port that are
  -- returned are a valid choice: the agent is one of the table's, enabled, with a heartbeat within
  -- the threshold, of the latest version among such agents, and has fewer busy ports than it may run
  -- matches; the port lies in its range and is not busy.
  pub pick_agent_port-IsChoice :
      (now stale : ℕ) (rows : List AgentRow) (uuid ip : String) (port : ℤ)
      → db.agents ≡ some rows
      → pick_agent_port shuffle db now stale ≡ picked uuid ip port
      → IsChoice db now (if stale == 0 then 30 else stale) rows uuid ip port
  unfolding pick_agent_port
  pick_agent_port-IsChoice now stale rows uuid ip port known e =
      let threshold : ℕ = if stale == 0 then 30 else stale in
      from_rows-picked now threshold rows (select (is_candidate now threshold) rows) uuid ip port
        refl (rw (known, pick_agent_port) at e)
