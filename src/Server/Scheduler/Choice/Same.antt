-- ===== src/Server/Scheduler/Choice/Same.antt =====
-- What two requests are given that read the same tables, each with a shuffle of its own.
use mathlib.Core.Logic.{∥∥₁_elim}
use mathlib.Core.Logic.Or
use mathlib.Core.List.{Mem, mem-cons, not-mem-nil}
use mathlib.Core.List.Perm
use mr1v.Base.{
  none≢some, some_inj, ℕ, ◌≤◌, ◌≡◌, ◌≢◌, refl, sym, ◌∙◌, subst, ◌⊎◌, inl, inr, Option, none, some,
  List, [], ◌∷◌, All, All-In, In, select, String, if◌then◌else◌, ◌==◌, length, arith,
}
use mr1v.Js.Num.{ℤ}
use mr1v.Server.Scheduler.{
  offered, AgentRow, Database, Offer, consider, better, choose, settle, picked, pick_agent_port,
  is_candidate, on_latest, first_port, from_rows, among,
}
use mr1v.Server.Scheduler.Choice.{
  IsOffer, consider-offered, consider-seen, Verdict-cases, better-P, Shuffles, Answers,
}
use mr1v.Server.Scheduler.Choice.Sound.{first_port-picked, Mem-In}

-- One offer, of which two shuffles draw the ports that were picked.
pub record Drawn (P : Offer → Type 0) (shuffle shuffle' : List ℤ → List ℤ) (uuid ip : String)
    (port : ℤ) (uuid' ip' : String) (port' : ℤ) : Type 0 where
  pub offer : Offer
  pub holds : P offer
  pub first : first_port offer (shuffle offer.available) ≡ picked uuid ip port
  pub second : first_port offer (shuffle' offer.available) ≡ picked uuid' ip' port'

module _ (shuffle shuffle' : List ℤ → List ℤ) (db : Database) (answers : Answers db)
    (uuid ip : String) (port : ℤ) (uuid' ip' : String) (port' : ℤ) where
  abbrev pub DrawnOf : (Offer → Type 0) → Type 0
  DrawnOf P = Drawn P shuffle shuffle' uuid ip port uuid' ip' port'

  settle-both :
      (P : Offer → Type 0) (best : Option Offer)
      → ((b : Offer) → best ≡ some b → P b)
      → settle shuffle db best ≡ picked uuid ip port
      → settle shuffle' db best ≡ picked uuid' ip' port'
      → DrawnOf P
  settle-both P none h e e' = cc
  settle-both P (some o) h e e' = record { offer = o; holds = h o refl; first = e; second = e' }

  choose-both :
      (P : Offer → Type 0) (cs : List AgentRow) (best : Option Offer)
      → ((b : Offer) → best ≡ some b → P b)
      → All (λ c. (o : Offer) → consider db c ≡ offered o → P o) cs
      → choose shuffle db best cs ≡ picked uuid ip port
      → choose shuffle' db best cs ≡ picked uuid' ip' port'
      → DrawnOf P
  unfolding choose
  choose-both P [] best h k e e' = settle-both P best h e e'
  choose-both P (c ∷ cs) best h (k, ks) e e' = elim (Verdict-cases (consider db c)) [
    | inl q ↦ choose-both P cs best h ks (rw (q, choose) at e) (rw (q, choose) at e')
    | inr (inl (start, q)) ↦ absurd (consider-seen db c start answers q)
    | inr (inr (o, q)) ↦
        choose-both P cs (some (better best o))
          (λ b z. subst P (some_inj.0 z) (better-P shuffle db P best o h (k o q))) ks
          (rw (q, choose) at e) (rw (q, choose) at e')
  ]

  among-both :
      (cs : List AgentRow)
      → among shuffle db cs ≡ picked uuid ip port
      → among shuffle' db cs ≡ picked uuid' ip' port'
      → DrawnOf (IsOffer db cs)
  among-both [] e e' = cc
  among-both (c ∷ cs) e e' =
      choose-both (IsOffer db (c ∷ cs)) (c ∷ cs) none (λ b z. absurd (none≢some z))
        (All-In (λ d. (o : Offer) → consider db d ≡ offered o → IsOffer db (c ∷ cs) o) (c ∷ cs)
          (λ d i o q. consider-offered db (c ∷ cs) d o i q))
        e e'

  from_rows-both :
      (cs : List AgentRow)
      → from_rows shuffle db cs ≡ picked uuid ip port
      → from_rows shuffle' db cs ≡ picked uuid' ip' port'
      → DrawnOf (IsOffer db (on_latest cs))
  from_rows-both [] e e' = cc
  from_rows-both (c ∷ cs) e e' = among-both (on_latest (c ∷ cs)) e e'

  -- Both ports are drawn from one offer, of a candidate of the latest version.
  pub pick_agent_port-both :
      (now stale : ℕ) (rows : List AgentRow)
      → db.agents ≡ some rows
      → pick_agent_port shuffle db now stale ≡ picked uuid ip port
      → pick_agent_port shuffle' db now stale ≡ picked uuid' ip' port'
      → DrawnOf (
          IsOffer db
            (on_latest (select (is_candidate now (if stale == 0 then 30 else stale)) rows)))
  unfolding pick_agent_port
  pick_agent_port-both now stale rows known e e' =
      from_rows-both (select (is_candidate now (if stale == 0 then 30 else stale)) rows)
        (rw (known, pick_agent_port) at e) (rw (known, pick_agent_port) at e')

only_port :
    (shuffle : List ℤ → List ℤ) (o : Offer) (p : ℤ) (uuid ip : String) (port : ℤ)
    → Shuffles shuffle
    → o.available ≡ p ∷ []
    → first_port o (shuffle o.available) ≡ picked uuid ip port
    → port ≡ p
only_port shuffle o p uuid ip port permutes one e =
    let first = first_port-picked o (shuffle o.available) uuid ip port e in
    let here : Mem port (shuffle o.available) = rw first.split_at (mem-cons.1 (Or.inl refl)) in
    let before : Mem port (p ∷ []) = rw one at ((Perm.mem_iff (permutes o.available)).0 here) in
    ∥∥₁_elim (Mem-In port (p ∷ []) before) (hlevel)
      (λ (i : In port (p ∷ [])). elim i [ inl same ↦ same | inr nowhere ↦ absurd nowhere ])

no_port :
    (shuffle : List ℤ → List ℤ) (o : Offer) (uuid ip : String) (port : ℤ)
    → Shuffles shuffle
    → o.available ≡ []
    → first_port o (shuffle o.available) ≢ picked uuid ip port
no_port shuffle o uuid ip port permutes nothing e =
    let first = first_port-picked o (shuffle o.available) uuid ip port e in
    let here : Mem port (shuffle o.available) = rw first.split_at (mem-cons.1 (Or.inl refl)) in
    not-mem-nil (rw nothing at ((Perm.mem_iff (permutes o.available)).0 here))

-- Two draws from one offer are of one agent, and of one port unless the offer has two.
pub Drawn-same :
    {P : Offer → Type 0} (shuffle shuffle' : List ℤ → List ℤ) (uuid ip : String) (port : ℤ)
    (uuid' ip' : String) (port' : ℤ)
    → Shuffles shuffle
    → Shuffles shuffle'
    → (d : Drawn P shuffle shuffle' uuid ip port uuid' ip' port')
    → (d.offer.uuid ≡ uuid)
      × (uuid' ≡ uuid)
      × (ip' ≡ ip)
      × ((port' ≡ port) ⊎ (2 ≤ length d.offer.available))
Drawn-same shuffle shuffle' uuid ip port uuid' ip' port' permutes permutes' d =
    let o = d.offer in
    let first = first_port-picked o (shuffle o.available) uuid ip port d.first in
    let second = first_port-picked o (shuffle' o.available) uuid' ip' port' d.second in
    (
      first.same_uuid,
      sym second.same_uuid ∙ first.same_uuid,
      sym second.same_ip ∙ first.same_ip,
      several o.available refl,
    )
  where
    several :
        (ps : List ℤ) → d.offer.available ≡ ps → (port' ≡ port) ⊎ (2 ≤ length d.offer.available)
    several [] e = absurd (no_port shuffle d.offer uuid ip port permutes e d.first)
    several (p ∷ []) e = inl (
        only_port shuffle' d.offer p uuid' ip' port' permutes' e d.second
        ∙ sym (only_port shuffle d.offer p uuid ip port permutes e d.first))
    several (p ∷ q ∷ ps) e = inr (rw e (omega arith))
