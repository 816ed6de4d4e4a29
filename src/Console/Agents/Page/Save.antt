-- ===== src/Console/Agents/Page/Save.antt =====
-- `handleSave`: what it sends, and that a port setting which it sent is shown again unchanged.
use mr1v.Base.{
  true≢false, none≢some, some_inj, sym, ◌∙◌, ℕ, ◌+◌, ◌-◌, ◌≤◌, ◌<◌, ◌≡◌, ◌≢◌, ◌↔◌, inl, inr, refl,
  ap, true, false, ◌||◌, Bool-cases, Option, none, some, Option-cases, List, [], ◌∷◌, arith, All,
  find_first, length,
}
use mr1v.Js.Num.{pos, negsuc, Num, nan, int, nat, num_lt}
use mr1v.Js.Text.{Text, is_empty}
use mr1v.Js.Parse.{to_number, is_digits}
use mr1v.Js.Parse.RoundTrip.{value, to_number-digits, is_digits_iff}
use mr1v.Console.Agents.Ports.{
  PortMode, range, list, PortRange, parse_port_range, serialize_port_range, port_count,
}
use mr1v.Console.Agents.Ports.RoundTrip.{IsNumeral, parse-serialize_range, parse-serialize_list}
use mr1v.Console.Agents.Page.{
  Agent, Page, FormValues, SaveAction, refused, SaveError, is_invalid_port, check_ports,
  first_error, send, or_zero, save_for, handle_save, open_edit,
}

-- A port number between 1 and 65535, in decimal digits.
abbrev pub IsPort : Text → Type 0
IsPort q = IsNumeral q × (1 ≤ value 0 q) × (value 0 q ≤ 65535)

to_number_of_numeral : (q : Text) → IsNumeral q → to_number q ≡ nat (value 0 q)
to_number_of_numeral [] h = absurd (h.0 refl)
to_number_of_numeral (c ∷ s) h = to_number-digits c s h.1

in_port_range :
    (n : ℕ)
    → ((num_lt (nat n) (nat 1) || num_lt (nat 65535) (nat n)) ≡ false) ↔ ((1 ≤ n) × (n ≤ 65535))
in_port_range n = ground arith

is_invalid_port_numeral :
    (q : Text)
    → IsNumeral q
    → is_invalid_port q ≡ (num_lt (nat (value 0 q)) (nat 1) || num_lt (nat 65535) (nat (value 0 q)))
unfolding is_invalid_port
is_invalid_port_numeral q h = rw (is_invalid_port, (is_digits_iff q).1 h, to_number_of_numeral q h)

is_invalid_port_other : (q : Text) → is_digits q ≡ false → is_invalid_port q ≡ true
unfolding is_invalid_port
is_invalid_port_other q d = rw (is_invalid_port, d)

pub is_invalid_port_iff : (q : Text) → (is_invalid_port q ≡ false) ↔ IsPort q
is_invalid_port_iff q = elim (Bool-cases (is_digits q)) [
  | inl d ↦
      let h : IsNumeral q = (is_digits_iff q).0 d in
      rw (is_invalid_port_numeral q h) (
        λ v. (h, ((in_port_range (value 0 q)).0 v).0, ((in_port_range (value 0 q)).0 v).1),
        λ v. (in_port_range (value 0 q)).1 (v.1, v.2),
      )
  | inr d ↦
      rw (is_invalid_port_other q d)
        (λ v. cc, λ v. absurd (true≢false (sym ((is_digits_iff q).1 v.0) ∙ d)))
]

find_invalid : (ps : List Text) → (find_first is_invalid_port ps ≡ none) ↔ All IsPort ps
find_invalid [] = (λ _. tt, λ _. refl)
find_invalid (p ∷ ps) = elim (Bool-cases (is_invalid_port p)) [
  | inl bad ↦ (λ h. ground arith, λ h. ground (arith, (is_invalid_port_iff p).1 h.0))
  | inr good ↦
      rw good
        (λ h. ((is_invalid_port_iff p).0 good, (find_invalid ps).0 h), λ h. (find_invalid ps).1 h.1)
]

-- What the inputs of the dialog hold: numbers that are whole or missing, and tags that are not empty.
abbrev pub IsNatural : Option Num → Type 0
IsNatural none = Unit
IsNatural (some nan) = ⊥
IsNatural (some (int (pos n))) = Unit
IsNatural (some (int (negsuc n))) = ⊥

pub record IsForm (p : Page) : Type 0 where
  pub start_natural : IsNatural p.port_start
  pub end_natural : IsNatural p.port_end
  pub tags_non_empty : All (λ t. t ≢ []) p.port_list

-- A setting that may be saved: at least `r` ports, in a range whose end lies above its start or in
-- a list of port numbers.
abbrev pub Saveable : ℕ → PortMode → Option Num → Option Num → List Text → Type 0
Saveable r range (some (int (pos s))) (some (int (pos e))) ports = (s < e) × (r ≤ e - s + 1)
Saveable r range _ _ ports = ⊥
Saveable r list start end ports = (ports ≢ []) × All IsPort ports × (r ≤ length ports)

is_empty_of_ne : (q : Text) → q ≢ [] → is_empty q ≡ false
is_empty_of_ne [] h = absurd (h refl)
is_empty_of_ne (c ∷ s) h = refl

invalid_tag_shown :
    (ps : List Text) (q : Text)
    → All (λ t. t ≢ []) ps
    → find_first is_invalid_port ps ≡ some q
    → is_empty q ≡ false
invalid_tag_shown [] q h e = cc
invalid_tag_shown (p ∷ ps) q (k, h) e = elim (Bool-cases (is_invalid_port p)) [
  | inl bad ↦ is_empty_of_ne q (λ z. k (some_inj.0 (rw bad at e) ∙ z))
  | inr good ↦ invalid_tag_shown ps q h (rw good at e)
]

check_list_iff :
    (p : Text) (ps : List Text) (start end : Option Num)
    → All (λ t. t ≢ []) (p ∷ ps)
    → (check_ports list start end (p ∷ ps) ≡ none) ↔ All IsPort (p ∷ ps)
unfolding check_ports
check_list_iff p ps start end h = elim (Option-cases (find_first is_invalid_port (p ∷ ps))) [
  | inl e ↦ rw (check_ports, e) (λ _. (find_invalid (p ∷ ps)).0 e, λ _. refl)
  | inr (q, e) ↦
      rw (check_ports, e, invalid_tag_shown (p ∷ ps) q h e)
        (λ v. cc, λ v. absurd (none≢some (sym ((find_invalid (p ∷ ps)).1 v) ∙ e)))
]

first_error_range :
    (r s e : ℕ) (ports : List Text)
    → (first_error range (some (nat s)) (some (nat e)) ports (nat r) ≡ none)
      ↔ ((s < e) × (r ≤ e - s + 1))
unfolding first_error port_count
first_error_range r s e ports = ground arith

first_error_list :
    (r : ℕ) (ports : List Text) (start end : Option Num)
    → All (λ t. t ≢ []) ports
    → (first_error list start end ports (nat r) ≡ none)
      ↔ ((ports ≢ []) × All IsPort ports × (r ≤ length ports))
unfolding first_error port_count
first_error_list r [] start end h = ground arith
first_error_list r (p ∷ ps) start end h =
    let (to, from) = check_list_iff p ps start end h in
    elim (Bool-cases (num_lt (nat (length (p ∷ ps))) (nat r))) [
      | inl few ↦ ground arith
      | inr enough ↦ rw (first_error, enough) (λ e. (λ z. cc, to e, ground arith), λ v. from v.1)
    ]

first_error_iff :
    (r : ℕ) (mode : PortMode) (start end : Option Num) (ports : List Text)
    → IsNatural start
    → IsNatural end
    → All (λ t. t ≢ []) ports
    → (first_error mode start end ports (nat r) ≡ none) ↔ Saveable r mode start end ports
unfolding first_error port_count
first_error_iff r list start end ports _ _ h = first_error_list r ports start end h
first_error_iff r range (some (int (pos s))) (some (int (pos e))) ports _ _ _ =
    first_error_range r s e ports
first_error_iff r range (some nan) end ports k _ _ = absurd k
first_error_iff r range (some (int (negsuc s))) end ports k _ _ = absurd k
first_error_iff r range (some (int (pos s))) (some nan) ports _ k _ = absurd k
first_error_iff r range (some (int (pos s))) (some (int (negsuc e))) ports _ k _ = absurd k
first_error_iff r range (some (int (pos s))) none ports _ _ _ = ground arith
first_error_iff r range none end ports _ _ _ = ground arith

abbrev after_checks : Agent → FormValues → Page → Option SaveError → SaveAction
after_checks a v p x = elim x [ some e ↦ refused e | none ↦ send a v p ]

after_checks_iff :
    (a : Agent) (v : FormValues) (p : Page) (x : Option SaveError)
    → (after_checks a v p x ≡ send a v p) ↔ (x ≡ none)
after_checks_iff a v p none = (λ _. refl, λ _. refl)
after_checks_iff a v p (some e) = (λ z. cc, λ z. cc)

handle_save-checks :
    (a : Agent) (v : FormValues) (p : Page) (r : ℕ)
    → p.edit_target ≡ some a
    → or_zero v.rehlds_run_max ≡ nat r
    → handle_save (some v) p
      ≡ after_checks a v p (first_error p.port_mode p.port_start p.port_end p.port_list (nat r))
unfolding handle_save
handle_save-checks a v p r t e =
    ap (λ o. save_for o (some v) p) t
    ∙ ap (λ n. after_checks a v p (first_error p.port_mode p.port_start p.port_end p.port_list n)) e

-- With a dialog open, a form that validates and whole numbers in the inputs, `handleSave` sends its
-- request exactly if the setting may be saved: a range whose end lies above its start, or a
-- non-empty list of port numbers from 1 to 65535, with no fewer ports than the instances that the
-- agent may run.
pub save_iff :
    (a : Agent) (v : FormValues) (p : Page) (r : ℕ)
    → IsForm p
    → p.edit_target ≡ some a
    → or_zero v.rehlds_run_max ≡ nat r
    → (handle_save (some v) p ≡ send a v p)
      ↔ Saveable r p.port_mode p.port_start p.port_end p.port_list
save_iff a v p r f t e =
    let (to, from) =
      first_error_iff r p.port_mode p.port_start p.port_end p.port_list f.start_natural
        f.end_natural f.tags_non_empty in
    let (back, forth) =
      after_checks_iff a v p
        (first_error p.port_mode p.port_start p.port_end p.port_list (nat r)) in
    let same = handle_save-checks a v p r t e in
    (λ z. to (back (sym same ∙ z)), λ z. same ∙ forth (from z))

-- The part of the page that the port inputs show.
abbrev pub shown : Page → PortRange
shown p = record { mode = p.port_mode; start = p.port_start; end = p.port_end; ports = p.port_list }

-- The same without what the other mode keeps.
abbrev pub setting : PortMode → Option Num → Option Num → List Text → PortRange
setting range start end ports = record { mode = range; start = start; end = end; ports = [] }
setting list start end ports = record { mode = list; start = none; end = none; ports = ports }

numerals : (ps : List Text) → All IsPort ps → All IsNumeral ps
numerals [] h = tt
numerals (p ∷ ps) (q, h) = (q.0, numerals ps h)

reread :
    (r : ℕ) (mode : PortMode) (start end : Option Num) (ports : List Text)
    → Saveable r mode start end ports
    → parse_port_range (serialize_port_range mode start end (some ports))
      ≡ setting mode start end ports
unfolding serialize_port_range
reread r range (some (int (pos s))) (some (int (pos e))) ports h = parse-serialize_range s e ports
reread r range (some (int (pos s))) (some (int (negsuc e))) ports h = absurd h
reread r range (some (int (pos s))) (some nan) ports h = absurd h
reread r range (some (int (pos s))) none ports h = absurd h
reread r range (some (int (negsuc s))) end ports h = absurd h
reread r range (some nan) end ports h = absurd h
reread r range none end ports h = absurd h
reread r list start end [] h = absurd (h.0 refl)
reread r list start end (p ∷ ps) h = parse-serialize_list p ps (numerals (p ∷ ps) h.1)

-- A setting that was sent, and that the agent then has, is what its dialog shows when it is opened
-- again: the same mode, and the range or the list of that mode.
pub open-save :
    (a b : Agent) (v : FormValues) (p q : Page) (r : ℕ)
    → IsForm p
    → p.edit_target ≡ some a
    → or_zero v.rehlds_run_max ≡ nat r
    → handle_save (some v) p ≡ send a v p
    → b.rehlds_port_range
      ≡ serialize_port_range p.port_mode p.port_start p.port_end (some p.port_list)
    → shown (open_edit b q).0 ≡ setting p.port_mode p.port_start p.port_end p.port_list
unfolding open_edit
open-save a b v p q r f t e sent kept = rw (
  kept,
  reread r p.port_mode p.port_start p.port_end p.port_list ((save_iff a v p r f t e).0 sent),
)
