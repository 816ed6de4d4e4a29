-- ===== src/Server/Rcon.antt =====
-- internal/rcon/rcon.go: a command to a game server over RCON. Texts are lists of bytes; white space
-- outside ASCII, which `TrimSpace` strips too, is left out.
pub mod Answered
use mr1v.Base.{
  ℕ, zero, suc, ◌+◌, ◌≤◌, ◌≡◌, ◌≢◌, refl, sym, ap, ◌∙◌, Bool, true, false, not, ◌&&◌, ◌||◌, Option,
  none, some, List, [], ◌∷◌, ◌++◌, append_assoc, append-nil, All, length, length-append, String,
  ◌==◌, leb, Bool-cases, inl, inr, if◌then◌else◌, arith,
}
use mr1v.Js.Text.{Text, codes, is_empty, starts_with}

abbrev pub packet_prefix : Text
packet_prefix = 255 ∷ 255 ∷ 255 ∷ 255 ∷ []

abbrev pub is_space : ℕ → Bool
is_space c = (leb 9 c && leb c 13) || c == 32

abbrev pub is_nul : ℕ → Bool
is_nul c = c == 0

-- `strings.TrimLeftFunc`, `TrimRightFunc` and both.
unfoldable pub trim_left : (ℕ → Bool) → Text → Text
trim_left p [] = []
trim_left p (c ∷ s) = if p c then trim_left p s else c ∷ s

abbrev pub keep_right : (ℕ → Bool) → ℕ → Text → Text
keep_right p c [] = if p c then [] else c ∷ []
keep_right p c (d ∷ s) = c ∷ d ∷ s

unfoldable pub trim_right : (ℕ → Bool) → Text → Text
trim_right p [] = []
trim_right p (c ∷ s) = keep_right p c (trim_right p s)

unfoldable pub trim : (ℕ → Bool) → Text → Text
unfolding trim_left trim_right
trim p s = trim_right p (trim_left p s)

-- What follows a prefix, if the text has it.
unfoldable pub behind : Text → Text → Option Text
behind [] s = some s
behind (d ∷ t) [] = none
behind (d ∷ t) (c ∷ s) = if c == d then behind t s else none

abbrev pub or_whole : Option Text → Text → Text
or_whole none s = s
or_whole (some t) s = t

-- `strings.TrimPrefix`.
abbrev pub trim_prefix : Text → Text → Text
trim_prefix t s = or_whole (behind t s) s

-- What follows the first place of the marker, `s[Index(s, marker)+len(marker):]`.
abbrev pub here_or : Option Text → Option Text → Option Text
here_or none later = later
here_or (some t) later = some t

unfoldable pub behind_first : Text → Text → Option Text
unfolding behind
behind_first t [] = behind t []
behind_first t (c ∷ s) = here_or (behind t (c ∷ s)) (behind_first t s)

unfoldable pub parse_response : Text → Text
unfolding behind trim
parse_response bytes = trim is_nul (trim_prefix (codes "l") (trim_prefix packet_prefix bytes))

-- What a read of 4096 bytes has of a datagram.
abbrev pub first_bytes : ℕ → Text → Text
first_bytes zero s = []
first_bytes (suc n) [] = []
first_bytes (suc n) (c ∷ s) = c ∷ first_bytes n s

-- The result of a call, or the call that failed.
pub data Result : Type 0 where
  returned : Text → Result
  dial_failed deadline_failed send_failed read_failed : Result
  unexpected_challenge empty_challenge : Result

abbrev pub checked : Text → Result
checked challenge = if is_empty challenge then empty_challenge else returned challenge

abbrev pub challenge_in : Option Text → Result
challenge_in none = unexpected_challenge
challenge_in (some s) = checked (trim is_space s)

-- `requestChallenge`; `none` is a read that fails.
unfoldable pub request_challenge : (sent : Bool) → (reply : Option Text) → Result
unfolding behind_first parse_response
request_challenge false reply = send_failed
request_challenge true none = read_failed
request_challenge true (some bytes) =
    challenge_in (behind_first (codes "challenge rcon") (parse_response (first_bytes 4096 bytes)))

abbrev pub asking : Text
asking = packet_prefix ++ codes "challenge rcon\n"

abbrev pub command_packet : (challenge password command : Text) → Text
command_packet challenge password command =
    packet_prefix
    ++ (codes "rcon "
        ++ (challenge ++ (codes " \"" ++ (password ++ (codes "\" " ++ (command ++ codes "\n"))))))

-- The network: whether the calls succeed, and the datagrams that come, `none` where a read fails.
pub record Network : Type 0 where
  pub dialled : Bool
  pub deadline_set : Bool
  pub first_sent : Bool
  pub first_reply : Option Text
  pub second_sent : Bool
  pub second_reply : Option Text

abbrev pub command_reply : Bool → Option Text → Result
command_reply false reply = send_failed
command_reply true none = read_failed
command_reply true (some bytes) = returned (parse_response (first_bytes 4096 bytes))

-- The result, and the datagrams that it asked to write.
abbrev pub after_challenge : (password command : Text) → Network → Result → Result × List Text
after_challenge password command net (returned challenge) = (
  command_reply net.second_sent net.second_reply,
  asking ∷ command_packet challenge password command ∷ [],
)
after_challenge password command net r = (r, asking ∷ [])

-- `Execute`.
unfoldable pub execute : (password command : Text) → Network → Result × List Text
unfolding request_challenge parse_response
execute password command net =
    if not net.dialled
    then (dial_failed, [])
    else if not net.deadline_set
    then (deadline_failed, [])
    else after_challenge password command net (request_challenge net.first_sent net.first_reply)
