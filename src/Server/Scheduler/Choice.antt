-- ===== src/Server/Scheduler/Choice.antt =====
-- What `pickAgentPort` guarantees of the agent and the port that it returns.
pub mod Sound
pub mod Same
use mathlib.Core.List.{Mem, Perm, mem-cons}
use mathlib.Core.List.Perm
use mr1v.Base.{
  some_inj, leb, In, In-select, ℕ, zero, suc, ◌+◌, ◌-◌, ◌*◌, ◌<◌, ◌≤◌, ◌≡◌, ◌≢◌, refl, sym, ◌∙◌, ap,
  subst, ◌⊎◌, inl, inr, Bool, true, false, not, ◌&&◌, Bool-cases, Option, none, some, Option-cases,
  List, [], ◌∷◌, All, select, arith, String, str_eq, eq_iff, if◌then◌else◌,
}
use mr1v.Js.Num.{ℤ, pos, ◌+ℤ◌}
use mr1v.Js.Text.{Text, text_eq, text_eq_iff, is_empty}
use mr1v.Server.Scheduler.{
  AgentRow, Database, Offer, Verdict, skipped, taken_unseen, offered, consider, with_range,
  with_busy, offer_of, lighter, better, is_busy, busy_count, all_ports, scan_range, Pick, picked,
  no_agent, none_on_latest, at_capacity, db_error, choose, pick_agent_port, is_candidate,
  latest_version, on_latest, settle, first_port, from_rows, among,
}

offered-inj : {a b : Offer} → offered a ≡ offered b → a ≡ b
offered-inj e = cc

not_full : (m n : ℕ) → leb m n ≡ false → n < m
not_full m n h = ground arith

abbrev offer : AgentRow → List ℤ → List ℤ → Offer
offer c available busy = record {
  uuid = c.uuid;
  public_ip = c.public_ip;
  available = available;
  busy_total = busy_count busy;
  run_max = c.rehlds_run_max;
}

module _ (db : Database) where
  -- What an offer of the loop promises: it comes from a candidate whose range could be read, its
  -- ports are those of the range that no match under way uses, and the agent has room.
  pub record IsOffer (cs : List AgentRow) (o : Offer) : Type 0 where
    pub agent : AgentRow
    pub listed : In agent cs
    pub busy : List ℤ
    pub start : ℤ
    pub end : ℤ
    pub reads : scan_range agent.rehlds_port_range ≡ some (start, end)
    pub asked : db.busy_ports agent.uuid ≡ some busy
    pub same_uuid : o.uuid ≡ agent.uuid
    pub same_ip : o.public_ip ≡ agent.public_ip
    pub free : o.available ≡ select (λ p. not (is_busy busy p)) (all_ports start end)
    pub room : busy_count busy < agent.rehlds_run_max

  offer_of-offered :
      (cs : List AgentRow) (c : AgentRow) (busy available : List ℤ) (start end : ℤ) (o : Offer)
      → In c cs
      → scan_range c.rehlds_port_range ≡ some (start, end)
      → db.busy_ports c.uuid ≡ some busy
      → available ≡ select (λ p. not (is_busy busy p)) (all_ports start end)
      → offer_of c busy available ≡ offered o
      → IsOffer cs o
  offer_of-offered cs c busy [] start end o i r a f e = cc
  offer_of-offered cs c busy (p ∷ ps) start end o i r a f e =
      elim (Bool-cases (leb c.rehlds_run_max (busy_count busy))) [
        | inl full ↦ let e' = rw full at e in cc
        | inr room ↦
            let given : offer c (p ∷ ps) busy ≡ o = offered-inj (rw room at e) in
            record {
              agent = c;
              listed = i;
              busy = busy;
              start = start;
              end = end;
              reads = r;
              asked = a;
              same_uuid = sym (ap (λ x. x.uuid) given);
              same_ip = sym (ap (λ x. x.public_ip) given);
              free = sym (ap (λ x. x.available) given) ∙ f;
              room = not_full c.rehlds_run_max (busy_count busy) room;
            }
      ]

  with_busy-offered :
      (cs : List AgentRow) (c : AgentRow) (start end : ℤ) (answer : Option (List ℤ)) (o : Offer)
      → In c cs
      → scan_range c.rehlds_port_range ≡ some (start, end)
      → db.busy_ports c.uuid ≡ answer
      → with_busy c start end answer ≡ offered o
      → IsOffer cs o
  with_busy-offered cs c start end none o i r a e = cc
  with_busy-offered cs c start end (some busy) o i r a e =
      offer_of-offered cs c busy _ start end o i r a refl e

  with_range-offered :
      (cs : List AgentRow) (c : AgentRow) (ends : Option (ℤ × ℤ)) (o : Offer)
      → In c cs
      → scan_range c.rehlds_port_range ≡ ends
      → with_range db c ends ≡ offered o
      → IsOffer cs o
  with_range-offered cs c none o i r e = cc
  with_range-offered cs c (some (start, end)) o i r e =
      with_busy-offered cs c start end (db.busy_ports c.uuid) o i r refl e

  consider-offered :
      (cs : List AgentRow) (c : AgentRow) (o : Offer)
      → In c cs
      → consider db c ≡ offered o
      → IsOffer cs o
  unfolding consider
  consider-offered cs c o i e = with_range-offered cs c (scan_range c.rehlds_port_range) o i refl e

-- Go's `rand.Shuffle` permutes, so that every port it yields was there before.
abbrev pub Shuffles : (List ℤ → List ℤ) → Type 0
Shuffles shuffle = (xs : List ℤ) → Perm (shuffle xs) xs

-- No query for busy ports fails.
abbrev pub Answers : Database → Type 0
Answers db = (uuid : String) → (busy : List ℤ) × (db.busy_ports uuid ≡ some busy)

offer_of-seen :
    (c : AgentRow) (busy available : List ℤ) (start : ℤ)
    → offer_of c busy available ≢ taken_unseen start
offer_of-seen c busy [] start e = cc
offer_of-seen c busy (p ∷ ps) start e = elim (Bool-cases (leb c.rehlds_run_max (busy_count busy))) [
  | inl full ↦ let e' = rw full at e in cc
  | inr room ↦ let e' = rw room at e in cc
]

with_range-seen :
    (db : Database) (c : AgentRow) (ends : Option (ℤ × ℤ)) (start : ℤ)
    → Answers db
    → with_range db c ends ≢ taken_unseen start
with_range-seen db c none start h e = cc
with_range-seen db c (some (s, t)) start h e =
    let (busy, answer) = h c.uuid in
    offer_of-seen c busy _ start (sym (ap (with_busy c s t) answer) ∙ e)

pub consider-seen :
    (db : Database) (c : AgentRow) (start : ℤ) → Answers db → consider db c ≢ taken_unseen start
unfolding consider
consider-seen db c start h = with_range-seen db c (scan_range c.rehlds_port_range) start h

pub Verdict-cases :
    (v : Verdict)
    → (v ≡ skipped) ⊎ ((start : ℤ) × (v ≡ taken_unseen start)) ⊎ ((o : Offer) × (v ≡ offered o))
Verdict-cases skipped = inl refl
Verdict-cases (taken_unseen start) = inr (inl (start, refl))
Verdict-cases (offered o) = inr (inr (o, refl))

module _ (shuffle : List ℤ → List ℤ) (db : Database) where
  settle-picked :
      (P : Offer → Type 0) (best : Option Offer) (uuid ip : String) (port : ℤ)
      → ((o : Offer) → best ≡ some o → P o)
      → settle shuffle db best ≡ picked uuid ip port
      → (o : Offer) × P o × (first_port o (shuffle o.available) ≡ picked uuid ip port)
  settle-picked P none uuid ip port h e = cc
  settle-picked P (some o) uuid ip port h e = (o, h o refl, e)

  pub better-P :
      (P : Offer → Type 0) (best : Option Offer) (o : Offer)
      → ((b : Offer) → best ≡ some b → P b)
      → P o
      → P (better best o)
  better-P P none o h k = k
  better-P P (some b) o h k = elim (Bool-cases (lighter o b)) [
    | inl l ↦ rw l k
    | inr l ↦ rw l (h b refl)
  ]

  -- The loop returns a port of an offer that holds what every offer and the best one before hold.
  choose-picked :
      (P : Offer → Type 0) (cs : List AgentRow) (best : Option Offer) (uuid ip : String) (port : ℤ)
      → ((b : Offer) → best ≡ some b → P b)
      → All (λ c. (o : Offer) → consider db c ≡ offered o → P o) cs
      → Answers db
      → choose shuffle db best cs ≡ picked uuid ip port
      → (o : Offer) × P o × (first_port o (shuffle o.available) ≡ picked uuid ip port)
  unfolding choose
  choose-picked P [] best uuid ip port h k ans e = settle-picked P best uuid ip port h e
  choose-picked P (c ∷ cs) best uuid ip port h (k, ks) ans e =
      elim (Verdict-cases (consider db c)) [
        | inl q ↦ choose-picked P cs best uuid ip port h ks ans (rw (q, choose) at e)
        | inr (inl (start, q)) ↦ absurd (consider-seen db c start ans q)
        | inr (inr (o, q)) ↦
            choose-picked P cs (some (better best o)) uuid ip port
              (λ b z. subst P (some_inj.0 z) (better-P P best o h (k o q))) ks ans
              (rw (q, choose) at e)
      ]
