-- ===== src/Js/Parse/RoundTrip.antt =====
-- What `parseInt` and `Number` make of decimal digits, and of printed numbers.
use mr1v.Base.{
  ℕ, zero, suc, ◌+◌, ◌-◌, ◌*◌, ◌/◌, ◌%◌, ◌<◌, ◌≤◌, ◌≡◌, ◌≢◌, ◌↔◌, refl, true, false, some, [], ◌∷◌,
  arith, All,
}
use mr1v.Js.Num.{nat}
use mr1v.Js.Text.{Text, Lacks, HasNoSpace, is_space, trim_start_of_HasNoSpace, trim_of_HasNoSpace}
use mr1v.Js.Parse.{
  emit, decimal, digit_in, scan, unsigned, signed, parse_int, whole, literal, to_number, is_digit,
  all_digits, is_digits,
}

abbrev pub IsDigit : ℕ → Type 0
IsDigit c = (b'0' ≤ c) × (c ≤ b'9')

abbrev pub AllDigits : Text → Type 0
AllDigits = All IsDigit

-- The number that decimal digits spell behind `acc`.
abbrev pub value : ℕ → Text → ℕ
value acc [] = acc
value acc (c ∷ s) = value (acc * 10 + (c - b'0')) s

digit_in-ten : (c : ℕ) → IsDigit c → digit_in 10 c ≡ some (c - b'0')
unfolding digit_in
digit_in-ten c h = ground arith

scan-digits : (s : Text) (acc : ℕ) → AllDigits s → scan 10 s true acc ≡ nat (value acc s)
unfolding scan
scan-digits [] acc h = refl
scan-digits (c ∷ s) acc (p, h) =
    rw (digit_in-ten c p, scan) (scan-digits s (acc * 10 + (c - b'0')) h)

whole-digits : (s : Text) (acc : ℕ) → AllDigits s → whole 10 s acc ≡ nat (value acc s)
unfolding whole
whole-digits [] acc h = refl
whole-digits (c ∷ s) acc (p, h) =
    rw (digit_in-ten c p, whole) (whole-digits s (acc * 10 + (c - b'0')) h)

IsDigit-not_space : (c : ℕ) → IsDigit c → is_space c ≡ false
unfolding is_space
IsDigit-not_space c (p, q) = ground arith

pub AllDigits-HasNoSpace : (s : Text) → AllDigits s → HasNoSpace s
AllDigits-HasNoSpace [] h = tt
AllDigits-HasNoSpace (c ∷ s) (p, h) = (IsDigit-not_space c p, AllDigits-HasNoSpace s h)

pub AllDigits-Lacks : (d : ℕ) (s : Text) → (IsDigit d → ⊥) → AllDigits s → Lacks d s
AllDigits-Lacks d [] k h = tt
AllDigits-Lacks d (c ∷ s) k (p, h) = (λ e. k (rw (← e) p), AllDigits-Lacks d s k h)

scan_start :
    (c : ℕ) (s : Text) → AllDigits (c ∷ s) → scan 10 (c ∷ s) false 0 ≡ nat (value 0 (c ∷ s))
unfolding scan
scan_start c s (p, h) = rw (digit_in-ten c p, scan) (scan-digits s (0 * 10 + (c - b'0')) h)

unsigned-digits : (c : ℕ) (s : Text) → AllDigits (c ∷ s) → unsigned (c ∷ s) ≡ nat (value 0 (c ∷ s))
unfolding unsigned
unsigned-digits c [] h = scan_start c [] h
unsigned-digits c (d ∷ s) h = ground (arith, scan_start c (d ∷ s) h)

signed-digits : (c : ℕ) (s : Text) → AllDigits (c ∷ s) → signed (c ∷ s) ≡ nat (value 0 (c ∷ s))
unfolding signed
signed-digits c s h = ground (arith, unsigned-digits c s h)

-- `parseInt` reads a non-empty text of decimal digits as the number that it spells.
pub parse_int-digits :
    (c : ℕ) (s : Text) → AllDigits (c ∷ s) → parse_int (c ∷ s) ≡ nat (value 0 (c ∷ s))
unfolding parse_int
parse_int-digits c s h =
    rw (trim_start_of_HasNoSpace (c ∷ s) (AllDigits-HasNoSpace (c ∷ s) h)) (signed-digits c s h)

literal-digits : (c : ℕ) (s : Text) → AllDigits (c ∷ s) → literal (c ∷ s) ≡ nat (value 0 (c ∷ s))
unfolding literal
literal-digits c [] h = whole-digits (c ∷ []) 0 h
literal-digits c (d ∷ s) h = ground (arith, whole-digits (c ∷ d ∷ s) 0 h)

-- So does `Number`.
pub to_number-digits :
    (c : ℕ) (s : Text) → AllDigits (c ∷ s) → to_number (c ∷ s) ≡ nat (value 0 (c ∷ s))
unfolding to_number
to_number-digits c s h =
    rw (trim_of_HasNoSpace (c ∷ s) (AllDigits-HasNoSpace (c ∷ s) h)) (literal-digits c s h)

value-emit : (f n : ℕ) (out : Text) → n < f → value 0 (emit f n out) ≡ value n out
unfolding emit
value-emit zero n out h = elim h [ ]
value-emit (suc f) n out h = ground (arith, value-emit f (n / 10) ((b'0' + n % 10) ∷ out))

AllDigits-emit : (f n : ℕ) (out : Text) → AllDigits out → AllDigits (emit f n out)
unfolding emit
AllDigits-emit zero n out h = h
AllDigits-emit (suc f) n out h = ground (arith, AllDigits-emit f (n / 10) ((b'0' + n % 10) ∷ out))

emit-ne-nil : (f n c : ℕ) (out : Text) → emit f n (c ∷ out) ≢ []
unfolding emit
emit-ne-nil zero n c out = ground arith
emit-ne-nil (suc f) n c out = ground (arith, emit-ne-nil f (n / 10) (b'0' + n % 10) (c ∷ out))

-- A printed number is a non-empty text of digits that spells the number.
pub AllDigits-decimal : (n : ℕ) → AllDigits (decimal n)
unfolding decimal
AllDigits-decimal n = AllDigits-emit (suc n) n [] tt

pub value-decimal : (n : ℕ) → value 0 (decimal n) ≡ n
unfolding decimal
value-decimal n = value-emit (suc n) n [] (omega arith)

pub decimal-ne-nil : (n : ℕ) → decimal n ≢ []
unfolding decimal emit
decimal-ne-nil n = ground (arith, emit-ne-nil n (n / 10) (b'0' + n % 10) [])

parse_int_of_digits : (s : Text) → s ≢ [] → AllDigits s → parse_int s ≡ nat (value 0 s)
parse_int_of_digits [] k h = absurd (k refl)
parse_int_of_digits (c ∷ s) k h = parse_int-digits c s h

pub parse_int-decimal : (n : ℕ) → parse_int (decimal n) ≡ nat n
parse_int-decimal n =
    rw (parse_int_of_digits (decimal n) (decimal-ne-nil n) (AllDigits-decimal n), value-decimal n)

all_digits_iff : (s : Text) → all_digits s ≡ true → AllDigits s
unfolding is_digit
all_digits_iff [] h = tt
all_digits_iff (c ∷ s) h = ground (arith, all_digits_iff s)

all_digits_of : (s : Text) → AllDigits s → all_digits s ≡ true
unfolding is_digit
all_digits_of [] h = refl
all_digits_of (c ∷ s) h = ground (arith, all_digits_of s)

-- `/^\d+$/` accepts exactly the non-empty texts of decimal digits.
pub is_digits_iff : (s : Text) → (is_digits s ≡ true) ↔ ((s ≢ []) × AllDigits s)
unfolding is_digits
is_digits_iff [] = (λ h. cc, λ h. absurd (h.0 refl))
is_digits_iff (c ∷ s) = (λ h. (λ e. cc, all_digits_iff (c ∷ s) h), λ h. all_digits_of (c ∷ s) h.1)

pub decimal_one : (n : ℕ) → n < 10 → decimal n ≡ (b'0' + n) ∷ []
unfolding decimal emit
decimal_one n h = ground arith

pub decimal_two : (n : ℕ) → 10 ≤ n → n < 100 → decimal n ≡ (b'0' + n / 10) ∷ (b'0' + n % 10) ∷ []
unfolding decimal emit
decimal_two zero h k = absurd (omega arith)
decimal_two (suc n) h k = ground arith
