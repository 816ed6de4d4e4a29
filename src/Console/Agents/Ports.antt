-- ===== src/Console/Agents/Ports.antt =====
-- pages/AgentsPage.tsx: the text of a port range, `start-end` or a list with commas, and its count.
pub mod RoundTrip
use mr1v.Base.{
  ℕ, suc, ◌≡◌, refl, Bool, true, false, not, ◌&&◌, Option, none, some, List, [], ◌∷◌, ◌++◌, map,
  if◌then◌else◌, get_elem?, select, length,
}
use mr1v.Js.Num.{Num, nan, nat, num_lt, num_add, num_sub}
use mr1v.Js.Text.{Text, codes, is_empty, has_char, split, join, trim}
use mr1v.Js.Parse.{parse_int, num_text}

pub data PortMode : Type 0 where
  range list : PortMode

pub record PortRange : Type 0 where
  pub mode : PortMode
  pub start : Option Num
  pub end : Option Num
  pub ports : List Text

-- `parseInt` of a piece; a piece that is not there is `undefined`, which reads as `NaN`.
abbrev pub piece : List Text → ℕ → Num
piece pieces i = elim (get_elem? pieces i) [ none ↦ nan | some s ↦ parse_int s ]

abbrev pub non_empty : Text → Bool
non_empty s = not (is_empty s)

unfoldable pub parse_port_range : Text → PortRange
parse_port_range raw =
    if is_empty raw
    then record { mode = range; start = none; end = none; ports = [] }
    else if has_char b'-' raw && not (has_char b',' raw)
    then record {
      mode = range;
      start = some (piece (split b'-' raw) 0);
      end = some (piece (split b'-' raw) 1);
      ports = [];
    }
    else record {
      mode = list;
      start = none;
      end = none;
      ports = select non_empty (map trim (split b',' raw));
    }

-- `ports ?? []`.
abbrev pub or_nil {ℓ} : {A : Type ℓ} → Option (List A) → List A
or_nil none = []
or_nil (some xs) = xs

abbrev range_text : Option Num → Option Num → Text
range_text (some s) (some e) = num_text s ++ (b'-' ∷ num_text e)
range_text _ _ = []

unfoldable pub serialize_port_range : PortMode → Option Num → Option Num → Option (List Text) → Text
serialize_port_range range start end ports = range_text start end
serialize_port_range list start end ports = join b',' (or_nil ports)

abbrev range_count : Option Num → Option Num → Num
range_count (some s) (some e) = if num_lt e s then nat 0 else num_add (num_sub e s) (nat 1)
range_count _ _ = nat 0

unfoldable pub port_count : PortMode → Option Num → Option Num → Option (List Text) → Num
port_count range start end ports = range_count start end
port_count list start end ports = nat (length (or_nil ports))

parse_port_range_tests :
    (parse_port_range (codes "27015-27020")
      ≡ record { mode = range; start = some (nat 27015); end = some (nat 27020); ports = [] })
    × (parse_port_range (codes "27015, ,27016") ≡ record {
      mode = list;
      start = none;
      end = none;
      ports = codes "27015" ∷ codes "27016" ∷ [];
    })
    × (parse_port_range (codes "a-b")
        ≡ record { mode = range; start = some nan; end = some nan; ports = [] })
    × (port_count range (some (nat 27015)) (some (nat 27020)) none ≡ nat 6)
unfolding parse_port_range has_char split trim parse_int port_count
parse_port_range_tests = (refl, refl, refl, refl)
