-- ===== src/Server/Rcon/Answered.antt =====
-- internal/rcon/rcon.go: a command whose challenge and reply come from a game server.
use mr1v.Base.{
  ℕ, zero, suc, ◌≤◌, ◌≡◌, ◌≢◌, refl, sym, ap, ◌∙◌, Bool, true, false, not, ◌&&◌, some, [], ◌∷◌,
  ◌++◌, append_assoc, All, All-append, length, arith,
}
use mr1v.Js.Text.{Text, codes}
use mr1v.Server.Rcon.{
  packet_prefix, is_space, is_nul, trim_left, keep_right, trim_right, trim, behind, behind_first,
  parse_response, first_bytes, checked, challenge_in, after_challenge, returned, request_challenge,
  asking, command_packet, Network, execute,
}

behind-append : (t s : Text) → behind t (t ++ s) ≡ some s
unfolding behind
behind-append [] s = refl
behind-append (d ∷ t) s = ground (arith, behind-append t s)

first_bytes-all : (n : ℕ) (s : Text) → length s ≤ n → first_bytes n s ≡ s
first_bytes-all zero [] h = refl
first_bytes-all zero (c ∷ s) h = absurd (omega (arith, h))
first_bytes-all (suc n) [] h = refl
first_bytes-all (suc n) (c ∷ s) h = ap (λ t. c ∷ t) (first_bytes-all n s (omega (arith, h)))

-- What is stripped at the right, behind characters that are not.
module _ (p : ℕ → Bool) where
  trim_right-blank : (pad : Text) → All (λ c. p c ≡ true) pad → trim_right p pad ≡ []
  unfolding trim_right
  trim_right-blank [] h = refl
  trim_right-blank (c ∷ pad) (e, h) = rw (trim_right-blank pad h, e) refl

  trim_left-blank : (pad : Text) → All (λ c. p c ≡ true) pad → trim_left p pad ≡ []
  unfolding trim_left
  trim_left-blank [] h = refl
  trim_left-blank (c ∷ pad) (e, h) = rw e (trim_left-blank pad h)

  keep_right-ink : (c : ℕ) (s : Text) → p c ≡ false → keep_right p c s ≡ c ∷ s
  keep_right-ink c [] e = rw e refl
  keep_right-ink c (d ∷ s) e = refl

  trim_right-padded :
      (s pad : Text)
      → All (λ c. p c ≡ false) s
      → All (λ c. p c ≡ true) pad
      → trim_right p (s ++ pad) ≡ s
  unfolding trim_right
  trim_right-padded [] pad h k = trim_right-blank pad k
  trim_right-padded (c ∷ s) pad (e, h) k =
      ap (keep_right p c) (trim_right-padded s pad h k) ∙ keep_right-ink c s e

  trim_left-ink :
      (s pad : Text) → All (λ c. p c ≡ false) s → s ≢ [] → trim_left p (s ++ pad) ≡ s ++ pad
  unfolding trim_left
  trim_left-ink [] pad h some_ink = absurd (some_ink refl)
  trim_left-ink (c ∷ s) pad (e, h) some_ink = rw e refl

  trim-padded :
      (s pad : Text)
      → All (λ c. p c ≡ false) s
      → All (λ c. p c ≡ true) pad
      → s ≢ []
      → trim p (s ++ pad) ≡ s
  unfolding trim
  trim-padded s pad h k some_ink =
      ap (trim_right p) (trim_left-ink s pad h some_ink) ∙ trim_right-padded s pad h k

abbrev pub NotNul : ℕ → Type 0
NotNul c = is_nul c ≡ false

-- A challenge is one word.
abbrev pub InWord : ℕ → Type 0
InWord c = (is_space c ≡ false) × (is_nul c ≡ false)

abbrev pub IsPadding : Text → Type 0
IsPadding pad = All (λ c. is_nul c ≡ true) pad

-- What a game server answers: the challenge on a line, padded with NULs, and the output of a command.
abbrev pub challenge_reply : (challenge pad : Text) → Text
challenge_reply challenge pad =
    packet_prefix ++ (codes "challenge rcon " ++ (challenge ++ (10 ∷ pad)))

abbrev pub output_reply : (output pad : Text) → Text
output_reply output pad = packet_prefix ++ (108 ∷ (output ++ pad))

spaceless : (w : Text) → All InWord w → All (λ c. is_space c ≡ false) w
spaceless [] h = tt
spaceless (c ∷ w) ((a, b), h) = (a, spaceless w h)

nulless : (w : Text) → All InWord w → All NotNul w
nulless [] h = tt
nulless (c ∷ w) ((a, b), h) = (b, nulless w h)

-- The line that is left of the challenge's reply.
abbrev line : Text → Text
line w = codes "challenge rcon " ++ (w ++ (10 ∷ []))

line-padded : (w pad : Text) → codes "challenge rcon " ++ (w ++ (10 ∷ pad)) ≡ line w ++ pad
line-padded w pad = ap (λ s. codes "challenge rcon " ++ s) (sym (append_assoc w (10 ∷ []) pad))

-- A test for texts without NULs.
abbrev nul_free : Text → Bool
nul_free [] = true
nul_free (c ∷ s) = not (is_nul c) && nul_free s

nul_free-NotNul : (s : Text) → nul_free s ≡ true → All NotNul s
nul_free-NotNul [] e = tt
nul_free-NotNul (c ∷ s) e = (ground (arith, e), nul_free-NotNul s (ground (arith, e)))

line-NotNul : (w : Text) → All InWord w → All NotNul (line w)
line-NotNul w h =
    All-append NotNul (codes "challenge rcon ") (w ++ (10 ∷ []))
      (nul_free-NotNul (codes "challenge rcon ") refl)
      (All-append NotNul w (10 ∷ []) (nulless w h) (refl, tt))

parse_response-challenge :
    (w pad : Text) → All InWord w → IsPadding pad → parse_response (challenge_reply w pad) ≡ line w
unfolding parse_response behind trim
parse_response-challenge w pad h k =
    ap (trim is_nul) (line-padded w pad) ∙ trim-padded is_nul (line w) pad (line-NotNul w h) k cc

parse_response-output :
    (output pad : Text)
    → All NotNul output
    → IsPadding pad
    → parse_response (output_reply output pad) ≡ output
unfolding parse_response behind trim
parse_response-output [] pad h k =
    ap (trim_right is_nul) (trim_left-blank is_nul pad k) ∙ trim_right-blank is_nul [] tt
parse_response-output (c ∷ output) pad h k = trim-padded is_nul (c ∷ output) pad h k cc

checked-word : (w : Text) → w ≢ [] → checked w ≡ returned w
checked-word [] some_word = absurd (some_word refl)
checked-word (c ∷ w) some_word = refl

-- The challenge in the line.
challenge_in-line :
    (w : Text)
    → w ≢ []
    → All InWord w
    → challenge_in (behind_first (codes "challenge rcon") (line w)) ≡ returned w
unfolding behind_first behind trim trim_left
challenge_in-line w some_word h =
    ap checked (trim-padded is_space w (10 ∷ []) (spaceless w h) (refl, tt) some_word)
    ∙ checked-word w some_word

request_challenge-reply :
    (w pad : Text)
    → w ≢ []
    → All InWord w
    → IsPadding pad
    → length (challenge_reply w pad) ≤ 4096
    → request_challenge true (some (challenge_reply w pad)) ≡ returned w
unfolding request_challenge
request_challenge-reply w pad some_word h k short =
    ap (λ s. challenge_in (behind_first (codes "challenge rcon") (parse_response s)))
      (first_bytes-all 4096 (challenge_reply w pad) short)
    ∙ ap (λ s. challenge_in (behind_first (codes "challenge rcon") s))
        (parse_response-challenge w pad h k)
    ∙ challenge_in-line w some_word h

abbrev pub answering : (challenge output : Text) → Network
answering challenge output = record {
  dialled = true;
  deadline_set = true;
  first_sent = true;
  first_reply = some challenge;
  second_sent = true;
  second_reply = some output;
}

-- With a game server that answers the first datagram with a challenge of one word and the second with
-- an output without NULs, both padded with NULs or not and no longer than the buffer: a command is
-- sent with that very challenge and the password, and its output is returned whole.
pub execute-answering :
    (password command w pad output pad' : Text)
    → w ≢ []
    → All InWord w
    → IsPadding pad
    → All NotNul output
    → IsPadding pad'
    → length (challenge_reply w pad) ≤ 4096
    → length (output_reply output pad') ≤ 4096
    → execute password command (answering (challenge_reply w pad) (output_reply output pad'))
      ≡ (returned output, asking ∷ command_packet w password command ∷ [])
unfolding execute
execute-answering password command w pad output pad' some_word h k ink k' short short' =
    ap
      (after_challenge password command
        (answering (challenge_reply w pad) (output_reply output pad')))
      (request_challenge-reply w pad some_word h k short)
    ∙ ap (λ s. (returned s, asking ∷ command_packet w password command ∷ []))
        (ap parse_response (first_bytes-all 4096 (output_reply output pad') short')
          ∙ parse_response-output output pad' ink k')
