-- ===== src/Server/Scheduler/Dialog.antt =====
-- The port settings that the console saves, as the backend's scheduler reads them.
use mr1v.Base.{
  ℕ, zero, suc, ◌+◌, ◌-◌, ◌*◌, ◌^◌, ◌<◌, ◌≤◌, ◌≡◌, ◌≢◌, refl, true, Option, none, some, List, [],
  ◌∷◌, ◌++◌, append-nil, arith, ap, ◌∙◌, sym, length,
}
use mr1v.Js.Num.{ℤ, pos, ◌+ℤ◌, Num, nat}
use mr1v.Js.Text.{Text, join}
use mr1v.Js.Parse.{decimal, num_text}
use mr1v.Js.Parse.RoundTrip.{AllDigits, value, AllDigits-decimal, value-decimal, decimal-ne-nil}
use mr1v.Console.Agents.Ports.{range, list, serialize_port_range, port_count}
use mr1v.Console.Agents.Page.Save.{IsPort, Saveable}
use mr1v.Server.Scheduler.{
  AgentRow, Database, skipped, scan_digits, scan_int, behind_dash, scan_range, ports_from,
  range_length, all_ports, consider, with_range,
}

-- Digits end here: the text is over, or goes on with a character below them.
abbrev Stops : Text → Type 0
Stops [] = Unit
Stops (c ∷ s) = c < b'0'

scan_digits-stop :
    (ds rest : Text) (acc : ℕ)
    → AllDigits ds
    → Stops rest
    → scan_digits (ds ++ rest) true acc ≡ some (value acc ds, rest)
unfolding scan_digits
scan_digits-stop [] [] acc h k = refl
scan_digits-stop [] (c ∷ s) acc h k = ground arith
scan_digits-stop (c ∷ ds) rest acc (p, h) k =
    ground (arith, scan_digits-stop ds rest (acc * 10 + (c - b'0')) h k)

scan_int-stop :
    (ds rest : Text)
    → ds ≢ []
    → AllDigits ds
    → value 0 ds < 2 ^ 63
    → Stops rest
    → scan_int (ds ++ rest) ≡ some (pos (value 0 ds), rest)
unfolding scan_int
scan_int-stop [] rest h d b k = absurd (h refl)
scan_int-stop (c ∷ ds) rest h (p, d) b k =
    ground (arith, scan_digits-stop ds rest (0 * 10 + (c - b'0')) d k)

length-ports_from : (p : ℤ) (n : ℕ) → length (ports_from p n) ≡ n
length-ports_from p zero = refl
length-ports_from p (suc n) = ap suc (length-ports_from (p +ℤ pos 1) n)

scan_int-decimal :
    (n : ℕ) (rest : Text)
    → n < 2 ^ 63
    → Stops rest
    → scan_int (decimal n ++ rest) ≡ some (pos n, rest)
scan_int-decimal n rest b k =
    scan_int-stop (decimal n) rest (decimal-ne-nil n) (AllDigits-decimal n) (rw (value-decimal n) b)
      k
    ∙ ap (λ m. some (pos m, rest)) (value-decimal n)

scan_range-decimal :
    (s e : ℕ)
    → s < 2 ^ 63
    → e < 2 ^ 63
    → scan_range (decimal s ++ (b'-' ∷ decimal e)) ≡ some (pos s, pos e)
unfolding scan_range
scan_range-decimal s e bs be =
    rw (scan_int-decimal s (b'-' ∷ decimal e) bs (omega arith))
      (rw (← append-nil (decimal e), scan_int-decimal e [] be tt))

-- A range that the dialog saves, with ports up to 65535, is read by the scheduler as the same two
-- ends, and offers as many ports as the dialog counts.
pub saved_range-scheduled :
    (r s e : ℕ) (ports : List Text)
    → Saveable r range (some (nat s)) (some (nat e)) ports
    → e ≤ 65535
    → (scan_range (serialize_port_range range (some (nat s)) (some (nat e)) (some ports))
        ≡ some (pos s, pos e))
      × (nat (length (all_ports (pos s) (pos e)))
          ≡ port_count range (some (nat s)) (some (nat e)) (some ports))
unfolding serialize_port_range num_text all_ports port_count
saved_range-scheduled r s e ports h b = (
  scan_range-decimal s e (omega arith) (omega arith),
  rw (length-ports_from (pos s) (range_length (pos s) (pos e))) (ground arith),
)

scan_range-list : (p : Text) (ps : List Text) → IsPort p → scan_range (join b',' (p ∷ ps)) ≡ none
unfolding scan_range join
scan_range-list p [] q =
    ap scan_range (sym (append-nil p))
    ∙ ap behind_dash (scan_int-stop p [] q.0.0 q.0.1 (omega (arith, q.2)) tt)
scan_range-list p (p' ∷ ps) q =
    ap behind_dash
      (scan_int-stop p (b',' ∷ join b',' (p' ∷ ps)) q.0.0 q.0.1 (omega (arith, q.2)) (omega arith))

-- An agent whose ports were saved as a list is never offered a match: the scheduler cannot read the
-- list, and passes the agent by, whatever ports are busy.
pub saved_list-skipped :
    (r : ℕ) (start end : Option Num) (ports : List Text) (db : Database) (c : AgentRow)
    → Saveable r list start end ports
    → c.rehlds_port_range ≡ serialize_port_range list start end (some ports)
    → consider db c ≡ skipped
unfolding consider serialize_port_range
saved_list-skipped r start end [] db c h e = absurd (h.0 refl)
saved_list-skipped r start end (p ∷ ps) db c h e =
    ap (λ t. with_range db c (scan_range t)) e ∙ ap (with_range db c) (scan_range-list p ps h.1.0)
