-- ===== src/Console/Agents/Containers.antt =====
-- pages/AgentsPage.tsx: `ContainerExpand`, the containers of one agent, and the load column.
pub mod Env
pub mod Rows
use mathlib.Core.Option
use mr1v.Base.{
  ℕ, zero, suc, ◌+◌, ◌-◌, ◌≡◌, refl, Bool, true, false, not, ◌&&◌, ◌||◌, Option, none, some, List,
  [], ◌∷◌, ◌++◌, map, String, leb, ltb, ◌==◌, if◌then◌else◌, select, length,
}
use mr1v.Js.Num.{Num, nat, num_lt, num_le}
use mr1v.Js.Text.{Text, codes, is_empty, split, starts_with}
use mr1v.Js.Dict.{get, put}
use mr1v.Console.Agents.Ports.{or_nil, non_empty}
use mr1v.Console.Agents.Page.{Agent}

pub record ContainerDetail : Type 0 where
  pub id : String
  pub image : String
  pub command : String
  pub created : ℕ
  pub status : Text
  pub names : Option (List Text)
  pub env : Option (List Text)
  pub labels : Option (List (String × String))

pub record Expand : Type 0 where
  pub loading : Bool
  pub containers : Option (List ContainerDetail)
  pub expanded_env : List (String × Bool)
  pub fetched : Bool

abbrev pub mounted : Expand
mounted = record { loading = false; containers = none; expanded_env = []; fetched = false }

-- The effect: the first run asks for GET /agents/:uuid/containers, a later one does nothing. The
-- Boolean says whether a request is made.
unfoldable pub load : Expand → Expand × Bool
load s = if s.fetched then (s, false) else (record s { fetched = true; loading = true }, true)

-- The reply; a failed request shows no container.
unfoldable pub loaded : Option (Option (List ContainerDetail)) → Expand → Expand
loaded none s = record s { containers = some []; loading = false }
loaded (some body) s = record s { containers = some (or_nil body); loading = false }

-- `expandedEnv[id]`, where a missing entry is falsy.
abbrev pub flag : Option Bool → Bool
flag none = false
flag (some b) = b

unfoldable pub is_open : String → Expand → Bool
is_open id s = flag (get id s.expanded_env)

unfoldable pub toggle_env : String → Expand → Expand
unfolding is_open
toggle_env id s = record s { expanded_env = put id (not (is_open id s)) s.expanded_env }

-- The keys of the rows that are expanded.
unfoldable pub open_keys : List (String × Bool) → List String
open_keys [] = []
open_keys ((k, v) ∷ d) = if v then k ∷ open_keys d else open_keys d

-- Lower case of an ASCII letter; no other character has `u` or `p` as its lower case.
abbrev lower : ℕ → ℕ
lower c = if leb b'A' c && leb c b'Z' then c + 32 else c

unfoldable pub is_up : Text → Bool
unfolding starts_with
is_up v = starts_with (map lower v) (codes "up")

-- `n.replace(/^\//, '')`.
unfoldable pub shown_name : Text → Text
shown_name [] = []
shown_name (c ∷ s) = if c == b'/' then s else c ∷ s

unfoldable pub name_tags : Option (List Text) → List Text
unfolding shown_name
name_tags names = map shown_name (or_nil names)

-- The variable and its value in one line of the environment.
pub record EnvRow : Type 0 where
  pub key : Text
  pub val : Text

-- `line.indexOf('=')`.
abbrev pub index_of : ℕ → Text → Option ℕ
index_of c [] = none
index_of c (d ∷ s) = if d == c then some 0 else Option.map suc (index_of c s)

abbrev pub slice_to : ℕ → Text → Text
slice_to zero s = []
slice_to (suc n) [] = []
slice_to (suc n) (c ∷ s) = c ∷ slice_to n s

abbrev pub slice_from : ℕ → Text → Text
slice_from zero s = s
slice_from (suc n) [] = []
slice_from (suc n) (c ∷ s) = slice_from n s

unfoldable pub env_row : Text → EnvRow
env_row line = elim (index_of b'=' line) [
  | none ↦ record { key = line; val = [] }
  | some i ↦ record { key = slice_to i line; val = slice_from (i + 1) line }
]

-- What the expanded row shows.
pub data View : Type 0 where
  spinner blank : View
  table : (rows : List ContainerDetail) (open_rows : List String) (total running : ℕ) → View

unfoldable pub view : Expand → View
unfolding open_keys is_up
view s = if s.loading then spinner else elim s.containers [
  | none ↦ blank
  | some cs ↦
      table cs (open_keys s.expanded_env) (length cs) (length (select (λ c. is_up c.status) cs))
]

-- The load column: a full agent, a busy one and an idle one have three colours.
pub data LoadTag : Type 0 where
  red blue grey : (running : ℕ) (run_max : Num) → LoadTag

abbrev pub running_count : Text → ℕ
running_count s = if is_empty s then 0 else length (select non_empty (split b',' s))

unfoldable pub load_tag : Agent → LoadTag
load_tag r =
    let running = running_count r.running_containers in
    if num_lt (nat 0) r.rehlds_run_max && num_le r.rehlds_run_max (nat running)
    then red running r.rehlds_run_max
    else if ltb 0 running
    then blue running r.rehlds_run_max
    else grey running r.rehlds_run_max
