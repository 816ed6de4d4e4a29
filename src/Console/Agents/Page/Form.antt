-- ===== src/Console/Agents/Page/Form.antt =====
-- The dialog's inputs over any sequence of events on the page, and what the inputs let through.
use mr1v.Base.{
  ◌≡◌, ◌≢◌, refl, Bool, true, false, false≢true, not, ◌&&◌, Bool-cases, inl, inr, Option, none,
  some, List, [], ◌∷◌, ◌++◌, map, All, String, select,
}
use mr1v.Js.Num.{Num, nan, int}
use mr1v.Js.Text.{Text, codes, has_char, is_empty, split, trim}
use mr1v.Js.Parse.{is_digits, num_text}
use mr1v.Console.Agents.Ports.{
  PortMode, range, piece, non_empty, parse_port_range, port_count, serialize_port_range,
}
use mr1v.Console.Agents.Page.{
  Agent, Page, FormValues, patch, initial, fetch_agents, fetched_agents, open_edit, saved,
  close_edit, set_mode, set_start, set_end, set_ports, expand, handle_save, first_error, checked,
  or_zero,
}

-- What can happen on the page: the timer or the button, a reply, and the user's inputs.
pub data Event : Type 0 where
  fetch_due : Event
  agents_reply : Option (Option (List Agent)) → Event
  edit_clicked : Agent → Event
  save_reply : Bool → Event
  cancelled : Event
  mode_chosen : PortMode → Event
  start_typed end_typed : Option Num → Event
  tags_typed : List Text → Event
  row_toggled : Bool → String → Event

pub step : Page → Event → Page
step p fetch_due = fetch_agents p
step p (agents_reply r) = fetched_agents r p
step p (edit_clicked a) = (open_edit a p).0
step p (save_reply ok) = saved ok p
step p cancelled = close_edit p
step p (mode_chosen m) = set_mode m p
step p (start_typed v) = set_start v p
step p (end_typed v) = set_end v p
step p (tags_typed vals) = set_ports vals p
step p (row_toggled b k) = expand b k p

pub run : Page → List Event → Page
run p [] = p
run p (e ∷ es) = run (step p e) es

abbrev pub TagsNonEmpty : Page → Type 0
TagsNonEmpty p = All (λ t. t ≢ []) p.port_list

digits_non_empty : (vals : List Text) → All (λ t. t ≢ []) (select is_digits vals)
unfolding is_digits
digits_non_empty [] = tt
digits_non_empty ([] ∷ vals) = digits_non_empty vals
digits_non_empty ((c ∷ s) ∷ vals) = elim (Bool-cases (is_digits (c ∷ s))) [
  | inl yes_digits ↦ rw yes_digits (λ z. cc, digits_non_empty vals)
  | inr other ↦ rw other (digits_non_empty vals)
]

pieces_non_empty : (ps : List Text) → All (λ t. t ≢ []) (select non_empty ps)
pieces_non_empty [] = tt
pieces_non_empty ([] ∷ ps) = pieces_non_empty ps
pieces_non_empty ((c ∷ s) ∷ ps) = (λ z. cc, pieces_non_empty ps)

parsed_non_empty : (raw : Text) → All (λ t. t ≢ []) (parse_port_range raw).ports
unfolding parse_port_range
parsed_non_empty raw = elim (Bool-cases (is_empty raw)) [
  | inl e ↦ rw e tt
  | inr e ↦ elim (Bool-cases (has_char b'-' raw && not (has_char b',' raw))) [
    | inl r ↦ rw (e, r) tt
    | inr l ↦ rw (e, l) (pieces_non_empty (map trim (split b',' raw)))
  ]
]

step-TagsNonEmpty : (p : Page) (e : Event) → TagsNonEmpty p → TagsNonEmpty (step p e)
unfolding step fetch_agents fetched_agents open_edit saved close_edit set_mode set_start set_end
    set_ports expand
step-TagsNonEmpty p fetch_due h = h
step-TagsNonEmpty p (agents_reply none) h = h
step-TagsNonEmpty p (agents_reply (some body)) h = h
step-TagsNonEmpty p (edit_clicked a) h = parsed_non_empty a.rehlds_port_range
step-TagsNonEmpty p (save_reply true) h = h
step-TagsNonEmpty p (save_reply false) h = h
step-TagsNonEmpty p cancelled h = h
step-TagsNonEmpty p (mode_chosen m) h = h
step-TagsNonEmpty p (start_typed v) h = h
step-TagsNonEmpty p (end_typed v) h = h
step-TagsNonEmpty p (tags_typed vals) h = digits_non_empty vals
step-TagsNonEmpty p (row_toggled b k) h = h

run-TagsNonEmpty_from : (p : Page) (es : List Event) → TagsNonEmpty p → TagsNonEmpty (run p es)
unfolding run
run-TagsNonEmpty_from p [] h = h
run-TagsNonEmpty_from p (e ∷ es) h = run-TagsNonEmpty_from (step p e) es (step-TagsNonEmpty p e h)

-- Whatever agents are opened and whatever is typed, no tag of the port list is ever empty, so the
-- empty text that `handleSave` would let through never reaches it.
pub run-TagsNonEmpty : (es : List Event) → TagsNonEmpty (run initial es)
run-TagsNonEmpty es = run-TagsNonEmpty_from initial es tt

-- A stored range such as `a-b` has a dash and no number in front of it.
abbrev pub StartsWithoutNumber : Text → Type 0
StartsWithoutNumber raw =
    (has_char b'-' raw ≡ true) × (has_char b',' raw ≡ false) × (piece (split b'-' raw) 0 ≡ nan)

opened_nan :
    (raw : Text)
    → StartsWithoutNumber raw
    → parse_port_range raw
      ≡ record { mode = range; start = some nan; end = some (piece (split b'-' raw) 1); ports = [] }
unfolding parse_port_range has_char
opened_nan [] h = absurd (false≢true h.0)
opened_nan (c ∷ s) h = rw (h.0, h.1, h.2)

no_error_nan : (x run_max : Num) → first_error range (some nan) (some x) [] run_max ≡ none
unfolding first_error port_count
no_error_nan nan run_max = refl
no_error_nan (int n) run_max = refl

-- If the stored range of an agent has a dash, no comma and no number in front of the dash, then its
-- dialog, saved as it was opened, passes every check and sends a range that starts with `NaN`,
-- whatever number of instances the form asks for.
pub save-open_nan :
    (a : Agent) (v : FormValues) (p : Page)
    → StartsWithoutNumber a.rehlds_port_range
    → handle_save (some v) (open_edit a p).0
      ≡ patch a.uuid (record {
        status = v.status;
        rehlds_run_max = v.rehlds_run_max;
        rehlds_port_range = codes "NaN-" ++ num_text (piece (split b'-' a.rehlds_port_range) 1);
      })
unfolding handle_save open_edit serialize_port_range num_text
save-open_nan a v p h =
    rw
      (
        opened_nan a.rehlds_port_range h,
        checked,
        no_error_nan (piece (split b'-' a.rehlds_port_range) 1) (or_zero v.rehlds_run_max),
      )
      (rw (open_edit, opened_nan a.rehlds_port_range h))
