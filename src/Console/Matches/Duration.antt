-- ===== src/Console/Matches/Duration.antt =====
-- pages/MatchesPage.tsx: `fmtDuration`, on the whole seconds of a duration (its two floors drop the
-- rest).
use mr1v.Base.{
  ℕ, zero, suc, ◌+◌, ◌/◌, ◌%◌, ◌<◌, ◌≡◌, refl, [], ◌∷◌, ◌++◌, arith, ltb, if◌then◌else◌, length,
}
use mr1v.Js.Text.{Text, codes}
use mr1v.Js.Parse.{decimal}
use mr1v.Js.Parse.RoundTrip.{decimal_one, decimal_two}
use native.Mathlib.Decide.{dec_lt}

-- `s.padStart(n, c)` for one character.
unfoldable pub pad_start : ℕ → ℕ → Text → Text
pad_start zero c s = s
pad_start (suc n) c s = let rest = pad_start n c s in if ltb n (length s) then s else c ∷ rest

unfoldable pub fmt_duration : ℕ → Text
unfolding decimal pad_start
fmt_duration sec =
    decimal (sec / 60) ++ (codes "分" ++ (pad_start 2 b'0' (decimal (sec % 60)) ++ codes "秒"))

two_digits :
    (s : ℕ) → s < 60 → pad_start 2 b'0' (decimal s) ≡ (b'0' + s / 10) ∷ (b'0' + s % 10) ∷ []
unfolding pad_start
two_digits s h = elim (dec_lt s 10) [
  | yes small ↦ rw (decimal_one s small) (ground arith)
  | no large ↦ rw (decimal_two s (omega arith) (omega arith))
]

-- A duration is shown as its whole minutes and exactly two digits for the seconds left, the tens and
-- the ones.
pub fmt_duration_lem :
    (sec : ℕ)
    → fmt_duration sec
      ≡ decimal (sec / 60)
        ++ (codes "分" ++ ((b'0' + sec % 60 / 10) ∷ (b'0' + sec % 60 % 10) ∷ codes "秒"))
unfolding fmt_duration
fmt_duration_lem sec = rw (two_digits (sec % 60) (omega arith))

fmt_tests : (fmt_duration 125 ≡ codes "2分05秒") × (fmt_duration 59 ≡ codes "0分59秒")
unfolding fmt_duration
fmt_tests = (refl, refl)
