-- ===== src/Console/Agents/Ports/RoundTrip.antt =====
-- A port setting that is written as text is read back.
use mr1v.Base.{
  ℕ, ◌≡◌, ◌≢◌, refl, true, false, some, none, List, [], ◌∷◌, ◌++◌, arith, map, All, select,
}
use mr1v.Js.Num.{nat}
use mr1v.Js.Text.{
  Text, Lacks, is_empty, has_char, has_char_of_Lacks, has_char-append, split, split-append,
  split_of_Lacks, split-join, join, trim, trim_of_HasNoSpace,
}
use mr1v.Js.Parse.{decimal, num_text}
use mr1v.Js.Parse.RoundTrip.{
  IsDigit, AllDigits, AllDigits-Lacks, AllDigits-HasNoSpace, AllDigits-decimal, parse_int-decimal,
}
use mr1v.Console.Agents.Ports.{range, list, parse_port_range, serialize_port_range, non_empty}

dash_no_digit : IsDigit b'-' → ⊥
dash_no_digit h = omega arith

comma_no_digit : IsDigit b',' → ⊥
comma_no_digit h = omega arith

decimal-Lacks_dash : (n : ℕ) → Lacks b'-' (decimal n)
decimal-Lacks_dash n = AllDigits-Lacks b'-' (decimal n) dash_no_digit (AllDigits-decimal n)

decimal-Lacks_comma : (n : ℕ) → Lacks b',' (decimal n)
decimal-Lacks_comma n = AllDigits-Lacks b',' (decimal n) comma_no_digit (AllDigits-decimal n)

is_empty-append : (s : Text) (c : ℕ) (t : Text) → is_empty (s ++ (c ∷ t)) ≡ false
is_empty-append [] c t = refl
is_empty-append (d ∷ s) c t = refl

has_char_self : (c : ℕ) (s t : Text) → has_char c (s ++ (c ∷ t)) ≡ true
unfolding has_char
has_char_self c [] t = ground arith
has_char_self c (d ∷ s) t = ground (arith, has_char_self c s t)

has_comma-range : (s e : ℕ) → has_char b',' (decimal s ++ (b'-' ∷ decimal e)) ≡ false
unfolding has_char
has_comma-range s e =
    rw
      (
        has_char-append b',' (decimal s) (b'-' ∷ decimal e),
        has_char_of_Lacks b',' (decimal s) (decimal-Lacks_comma s),
      )
      (has_char_of_Lacks b',' (decimal e) (decimal-Lacks_comma e))

split-range : (s e : ℕ) → split b'-' (decimal s ++ (b'-' ∷ decimal e)) ≡ decimal s ∷ decimal e ∷ []
split-range s e = rw (
  split-append b'-' (decimal s) (decimal e) (decimal-Lacks_dash s),
  split_of_Lacks b'-' (decimal e) (decimal-Lacks_dash e),
)

-- A range of two natural numbers is read back as the same two numbers, in range mode.
pub parse-serialize_range :
    (s e : ℕ) (ports : List Text)
    → parse_port_range (serialize_port_range range (some (nat s)) (some (nat e)) (some ports))
      ≡ record { mode = range; start = some (nat s); end = some (nat e); ports = [] }
unfolding parse_port_range serialize_port_range num_text
parse-serialize_range s e ports = rw (
  is_empty-append (decimal s) b'-' (decimal e),
  has_char_self b'-' (decimal s) (decimal e),
  has_comma-range s e,
  split-range s e,
  parse_int-decimal s,
  parse_int-decimal e,
)

-- A port as the list mode accepts it: a non-empty text of decimal digits.
abbrev pub IsNumeral : Text → Type 0
IsNumeral p = (p ≢ []) × AllDigits p

numerals_Lack : (d : ℕ) (ps : List Text) → (IsDigit d → ⊥) → All IsNumeral ps → All (Lacks d) ps
numerals_Lack d [] k h = tt
numerals_Lack d (p ∷ ps) k (q, h) = (AllDigits-Lacks d p k q.1, numerals_Lack d ps k h)

trim_numeral : (p : Text) → IsNumeral p → (trim p ≡ p) × (non_empty p ≡ true)
trim_numeral [] (k, h) = absurd (k refl)
trim_numeral (c ∷ s) (k, h) = (trim_of_HasNoSpace (c ∷ s) (AllDigits-HasNoSpace (c ∷ s) h), refl)

pieces_kept : (ps : List Text) → All IsNumeral ps → select non_empty (map trim ps) ≡ ps
pieces_kept [] h = refl
pieces_kept (p ∷ ps) (q, h) = rw ((trim_numeral p q).0, (trim_numeral p q).1, pieces_kept ps h)

has_char-join :
    (d : ℕ) (ps : List Text) → All (Lacks d) ps → (d ≢ b',') → has_char d (join b',' ps) ≡ false
unfolding has_char join
has_char-join d [] h k = refl
has_char-join d (p ∷ []) (q, h) k = has_char_of_Lacks d p q
has_char-join d (p ∷ r ∷ ps) (q, h) k =
    rw (has_char-append d p (b',' ∷ join b',' (r ∷ ps)), has_char_of_Lacks d p q)
      (ground (arith, has_char-join d (r ∷ ps) h k))

is_empty-join : (p : Text) (ps : List Text) → p ≢ [] → is_empty (join b',' (p ∷ ps)) ≡ false
unfolding join
is_empty-join [] ps k = absurd (k refl)
is_empty-join (c ∷ s) [] k = refl
is_empty-join (c ∷ s) (q ∷ ps) k = refl

-- A non-empty list of numerals is read back as the same list, in list mode.
pub parse-serialize_list :
    (p : Text) (ps : List Text)
    → All IsNumeral (p ∷ ps)
    → parse_port_range (serialize_port_range list none none (some (p ∷ ps)))
      ≡ record { mode = list; start = none; end = none; ports = p ∷ ps }
unfolding parse_port_range serialize_port_range
parse-serialize_list p ps h = rw (
  is_empty-join p ps h.0.0,
  has_char-join b'-' (p ∷ ps) (numerals_Lack b'-' (p ∷ ps) dash_no_digit h) (omega arith),
  split-join b',' p ps (AllDigits-Lacks b',' p comma_no_digit h.0.1)
      (numerals_Lack b',' ps comma_no_digit h.1),
  pieces_kept (p ∷ ps) h,
)
