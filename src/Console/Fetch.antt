-- ===== src/Console/Fetch.antt =====
-- The list that a page fetches, as every page of the console keeps it, and what the backend's
-- replies carry. A page's own `fetch...` handlers stand in its module.
use mr1v.Base.{Bool, true, false, Option, none, some, List, []}
use mr1v.Console.Agents.Ports.{or_nil}

pub record Listing {ℓ} (A : Type ℓ) : Type ℓ where
  pub rows : List A
  pub loading : Bool

-- A body that may be null, or `none` for a failed request.
abbrev pub Reply {ℓ} : Type ℓ → Type ℓ
Reply A = Option (Option (List A))

module _ {ℓ} {A : Type ℓ} where
  abbrev pub nothing_yet : Listing A
  nothing_yet = record { rows = []; loading = false }

  abbrev pub begin : Listing A → Listing A
  begin l = record l { loading = true }

  -- `setX(res.data ?? [])`, and `setLoading(false)` in any case.
  abbrev pub finish : Reply A → Listing A → Listing A
  finish none l = record l { loading = false }
  finish (some body) l = record { rows = or_nil body; loading = false }
