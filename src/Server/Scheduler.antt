-- ===== src/Server/Scheduler.antt =====
-- internal/backend/backend.go: the choice of an agent and a port for a new match. `Versions` is the
-- order of versions, `Choice` what the choice guarantees, `Dialog` how it fits the console's dialog.
pub mod Versions
pub mod Choice
pub mod Dialog
pub mod Settings
use mathlib.Core.Option
use mr1v.Base.{
  ℕ, zero, suc, ◌+◌, ◌-◌, ◌*◌, ◌≡◌, refl, Bool, true, false, not, ◌&&◌, ◌||◌, Option, none, some,
  List, [], ◌∷◌, ◌++◌, map, select, length, String, str_eq, ltb, leb, ◌==◌, if◌then◌else◌,
}
use mr1v.Js.Num.{ℤ, pos, pos_part, negsuc, ◌+ℤ◌, ◌-ℤ◌, neg_ℤ, ltb_ℤ, leb_ℤ}
use mr1v.Js.Text.{Text, codes, text_eq, is_empty}
use Versions.{compare_versions, in_int64}

-- A row of manager_agents, as far as the query reads it; times are in seconds.
pub record AgentRow : Type 0 where
  pub uuid : String
  pub public_ip : String
  pub status : String
  pub heartbeat_at : ℕ
  pub rehlds_run_max : ℕ
  pub rehlds_port_range : Text
  pub version : Text

-- The database: the agents, and for an agent the ports of its matches that are under way; `none` is
-- a query that fails.
pub record Database : Type 0 where
  pub agents : Option (List AgentRow)
  pub busy_ports : String → Option (List ℤ)

-- The WHERE clause of the first query.
unfoldable pub is_candidate : ℕ → ℕ → AgentRow → Bool
is_candidate now stale a =
    str_eq a.status "enabled"
    && ltb now (a.heartbeat_at + stale)
    && ltb 0 a.rehlds_run_max
    && not (is_empty a.rehlds_port_range)

abbrev keep_latest : Text → AgentRow → Text
keep_latest latest c =
    if not (is_empty c.version) && ltb_ℤ (pos 0) (compare_versions c.version latest)
    then c.version
    else latest

unfoldable pub latest_version : Text → List AgentRow → Text
latest_version latest [] = latest
latest_version latest (c ∷ cs) = latest_version (keep_latest latest c) cs

unfoldable pub on_latest : List AgentRow → List AgentRow
unfolding latest_version
on_latest cs =
    let latest = latest_version [] cs in
    if is_empty latest then cs else select (λ c. text_eq c.version latest) cs

-- The number that `%d` of `Sscanf` reads, and the text behind it: spaces, a sign, and at least one
-- digit; a number out of range is an error.
abbrev is_blank : ℕ → Bool
is_blank c = c == 32 || c == 9 || c == 13

unfoldable pub scan_digits : Text → Bool → ℕ → Option (ℕ × Text)
scan_digits [] seen acc = if seen then some (acc, []) else none
scan_digits (c ∷ s) seen acc =
    let more = scan_digits s true (acc * 10 + (c - b'0')) in
    if leb b'0' c && leb c b'9' then more else if seen then some (acc, c ∷ s) else none

abbrev signed : Bool → Option (ℕ × Text) → Option (ℤ × Text)
signed minus none = none
signed minus (some (n, s)) = Option.map (λ z. (z, s)) (in_int64 minus (some n))

unfoldable pub scan_int : Text → Option (ℤ × Text)
unfolding scan_digits
scan_int [] = none
scan_int (c ∷ s) =
    let further = scan_int s in
    if is_blank c
    then further
    else if c == b'-'
    then signed true (scan_digits s false 0)
    else if c == b'+'
    then signed false (scan_digits s false 0)
    else signed false (scan_digits (c ∷ s) false 0)

abbrev second_end : ℤ → Option (ℤ × Text) → Option (ℤ × ℤ)
second_end start none = none
second_end start (some (end, s)) = some (start, end)

abbrev pub behind_dash : Option (ℤ × Text) → Option (ℤ × ℤ)
behind_dash none = none
behind_dash (some (start, [])) = none
behind_dash (some (start, c ∷ s)) = if c == b'-' then second_end start (scan_int s) else none

-- `Sscanf(portRange, "%d-%d", &start, &end)`; what follows the second number is not read.
unfoldable pub scan_range : Text → Option (ℤ × ℤ)
unfolding scan_int
scan_range s = behind_dash (scan_int s)

-- `for p := start; p <= end; p++`.
abbrev pub range_length : ℤ → ℤ → ℕ
range_length start end = if ltb_ℤ end start then 0 else pos_part (end -ℤ start +ℤ pos 1)

abbrev pub ports_from : ℤ → ℕ → List ℤ
ports_from p zero = []
ports_from p (suc n) = p ∷ ports_from (p +ℤ pos 1) n

unfoldable pub all_ports : ℤ → ℤ → List ℤ
all_ports start end = ports_from start (range_length start end)

abbrev pub eq_ℤ : ℤ → ℤ → Bool
eq_ℤ a b = leb_ℤ a b && leb_ℤ b a

abbrev pub is_busy : List ℤ → ℤ → Bool
is_busy [] p = false
is_busy (q ∷ qs) p = eq_ℤ q p || is_busy qs p

-- The map of busy ports holds each of them once.
abbrev pub busy_count : List ℤ → ℕ
busy_count [] = 0
busy_count (q ∷ qs) = if is_busy qs q then busy_count qs else suc (busy_count qs)

pub record Offer : Type 0 where
  pub uuid : String
  pub public_ip : String
  pub available : List ℤ
  pub busy_total : ℕ
  pub run_max : ℕ

-- One round of the loop over the candidates. Without the table of matches the first port is taken.
pub data Verdict : Type 0 where
  skipped : Verdict
  taken_unseen : ℤ → Verdict
  offered : Offer → Verdict

abbrev pub offer_of : AgentRow → List ℤ → List ℤ → Verdict
offer_of c busy [] = skipped
offer_of c busy (p ∷ ps) =
    if leb c.rehlds_run_max (busy_count busy)
    then skipped
    else offered (record {
      uuid = c.uuid;
      public_ip = c.public_ip;
      available = p ∷ ps;
      busy_total = busy_count busy;
      run_max = c.rehlds_run_max;
    })

abbrev pub with_busy : AgentRow → ℤ → ℤ → Option (List ℤ) → Verdict
with_busy c start end none = taken_unseen start
with_busy c start end (some busy) =
    offer_of c busy (select (λ p. not (is_busy busy p)) (all_ports start end))

abbrev pub with_range : Database → AgentRow → Option (ℤ × ℤ) → Verdict
with_range db c none = skipped
with_range db c (some (start, end)) = with_busy c start end (db.busy_ports c.uuid)

unfoldable pub consider : Database → AgentRow → Verdict
unfolding all_ports
consider db c = with_range db c (scan_range c.rehlds_port_range)

-- `load < bestLoad`, on the fractions that the two floats stand for.
abbrev pub lighter : Offer → Offer → Bool
lighter a b = ltb (a.busy_total * b.run_max) (b.busy_total * a.run_max)

abbrev pub better : Option Offer → Offer → Offer
better none o = o
better (some best) o = if lighter o best then o else best

pub data Pick : Type 0 where
  picked : (uuid public_ip : String) (port : ℤ) → Pick
  no_agent none_on_latest at_capacity db_error : Pick

-- `rand.Shuffle`, then the first port.
abbrev pub first_port : Offer → List ℤ → Pick
first_port o [] = at_capacity
first_port o (p ∷ ps) = picked o.uuid o.public_ip p

module _ (shuffle : List ℤ → List ℤ) (db : Database) where
  abbrev pub settle : Option Offer → Pick
  settle none = at_capacity
  settle (some o) = first_port o (shuffle o.available)

  unfoldable pub choose : Option Offer → List AgentRow → Pick
  choose best [] = settle best
  choose best (c ∷ cs) = elim (consider db c) [
    | skipped ↦ choose best cs
    | taken_unseen start ↦ picked c.uuid c.public_ip start
    | offered o ↦ choose (some (better best o)) cs
  ]

  abbrev pub among : List AgentRow → Pick
  among [] = none_on_latest
  among (c ∷ cs) = choose none (c ∷ cs)

  abbrev pub from_rows : List AgentRow → Pick
  from_rows [] = no_agent
  from_rows (c ∷ cs) = among (on_latest (c ∷ cs))

  -- `pickAgentPort`; a threshold that is not positive becomes 30 seconds.
  unfoldable pub pick_agent_port : ℕ → ℕ → Pick
  unfolding choose
  pick_agent_port now stale_seconds =
      let stale = if stale_seconds == 0 then 30 else stale_seconds in
      elim db.agents [
        | none ↦ db_error
        | some rows ↦ from_rows (select (is_candidate now stale) rows)
      ]
