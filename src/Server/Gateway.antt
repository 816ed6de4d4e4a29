-- ===== src/Server/Gateway.antt =====
-- internal/gateway/gateway.go: the queue between the game servers' HTTP requests and MQTT.
use mr1v.Base.{
  ℕ, ◌≤◌, ◌≡◌, refl, Bool, true, false, ◌||◌, Option, none, some, List, [], ◌∷◌, ◌++◌, String,
  str_eq, ltb, ◌==◌, length, length-append, append_assoc, append-nil, if◌then◌else◌, arith, ◌∙◌, ap,
  sym,
}
use mr1v.Js.Num.{ℤ, pos, negsuc}
use mr1v.Js.Text.{Text, codes}

-- `envelope.Envelope`; `body` is what is passed on unread.
pub record Envelope : Type 0 where
  pub match_id : String
  pub event_type : String
  pub body : String

-- The channel, its capacity, and whether it was closed.
pub record Gateway : Type 0 where
  pub capacity : ℕ
  pub queue : List Envelope
  pub is_closed : Bool

-- A configured capacity that is not positive counts as 10000.
abbrev pub capacity_of : ℤ → ℕ
capacity_of (pos n) = if ltb 0 n then n else 10000
capacity_of (negsuc n) = 10000

unfoldable pub new : ℤ → Gateway
new n = record { capacity = capacity_of n; queue = []; is_closed = false }

-- The HTTP status; `panics` is a send on a closed channel, which net/http recovers from.
pub data Response : Type 0 where
  status : ℕ → Response
  panics : Response

-- What a request does: its response, the queue, and the envelopes that the hook was called with.
pub record Recorded : Type 0 where
  pub response : Response
  pub gateway : Gateway
  pub hooked : List Envelope

abbrev pub recorded : Response → Gateway → List Envelope → Recorded
recorded r g es = record { response = r; gateway = g; hooked = es }

-- `none` is a body that does not parse. The hook is called before the queue is tried.
unfoldable pub handle_record : Option Envelope → Gateway → Recorded
handle_record none g = recorded (status 400) g []
handle_record (some e) g =
    if str_eq e.match_id "" || str_eq e.event_type ""
    then recorded (status 400) g []
    else if g.is_closed
    then recorded panics g (e ∷ [])
    else if ltb (length g.queue) g.capacity
    then recorded (status 200) (record g { queue = g.queue ++ (e ∷ []) }) (e ∷ [])
    else recorded (status 503) g (e ∷ [])

-- A message that the MQTT client is given, whose payload is what `json.Marshal` makes.
pub record Message : Type 0 where
  pub topic : Text
  pub payload : String

abbrev pub take_first : List Envelope → Option (Envelope × List Envelope)
take_first [] = none
take_first (e ∷ es) = some (e, es)

unfoldable pub close : Gateway → Gateway
close g = record g { is_closed = true }

pub data Event : Type 0 where
  records : Option Envelope → Event
  publishes closes : Event

-- The gateway beside what it answered 200 to and what it gave to the MQTT client, each in order.
pub record World : Type 0 where
  pub gateway : Gateway
  pub accepted : List Envelope
  pub sent : List Message

abbrev pub start : ℤ → World
start n = record { gateway = new n; accepted = []; sent = [] }

abbrev pub was_accepted : Option Envelope → Response → List Envelope
was_accepted none r = []
was_accepted (some e) panics = []
was_accepted (some e) (status code) = if code == 200 then e ∷ [] else []

abbrev pub IsBounded : World → Type 0
IsBounded w = length w.gateway.queue ≤ w.gateway.capacity

-- `marshal` is `json.Marshal`, and `prefix` the configured prefix of topics.
module _ (marshal : Envelope → Option String) (prefix : String) where
  abbrev message : Envelope → Option String → List Message
  message e none = []
  message e (some payload) =
      record { topic = codes prefix ++ codes "/" ++ codes e.match_id; payload = payload } ∷ []

  -- The messages of envelopes; one that cannot be marshalled has none.
  abbrev pub messages : List Envelope → List Message
  messages [] = []
  messages (e ∷ es) = message e (marshal e) ++ messages es

  -- One round of `publishLoop`, and the message that it publishes, if any. An envelope that is taken
  -- is not queued again, and an error of the publication is only logged.
  abbrev pub published : Gateway → Option (Envelope × List Envelope) → Gateway × List Message
  published g none = (g, [])
  published g (some (e, es)) = (record g { queue = es }, message e (marshal e))

  unfoldable pub publish_next : Gateway → Gateway × List Message
  publish_next g = published g (take_first g.queue)

  abbrev pub step : Event → World → World
  step (records e) w =
      let o = handle_record e w.gateway in
      record w { gateway = o.gateway; accepted = w.accepted ++ was_accepted e o.response }
  step publishes w =
      let (g, ms) = publish_next w.gateway in record w { gateway = g; sent = w.sent ++ ms }
  step closes w = record w { gateway = close w.gateway }

  unfoldable pub run : List Event → World → World
  unfolding handle_record publish_next close
  run [] w = w
  run (e ∷ es) w = run es (step e w)

  abbrev pub IsOrdered : World → Type 0
  IsOrdered w = w.sent ++ messages w.gateway.queue ≡ messages w.accepted

  messages-append : (es fs : List Envelope) → messages (es ++ fs) ≡ messages es ++ messages fs
  messages-append [] fs = refl
  messages-append (e ∷ es) fs =
      ap (λ ms. message e (marshal e) ++ ms) (messages-append es fs)
      ∙ sym (append_assoc (message e (marshal e)) (messages es) (messages fs))

  published-Ordered :
      (g : Gateway) (sent : List Message) (q : List Envelope)
      → g.queue ≡ q
      → let (g', ms) = published g (take_first q) in
        (sent ++ ms) ++ messages g'.queue ≡ sent ++ messages q
  published-Ordered g sent [] e = rw (e, append-nil, append-nil) refl
  published-Ordered g sent (x ∷ q) e = append_assoc sent (message x (marshal x)) (messages q)

  published-IsBounded :
      (g : Gateway) (q : List Envelope)
      → length q ≤ g.capacity
      → g.queue ≡ q
      → let (g', ms) = published g (take_first q) in
        (length g'.queue ≤ g'.capacity) × (g'.capacity ≡ g.capacity)
  published-IsBounded g [] h e = (rw e h, refl)
  published-IsBounded g (x ∷ q) h e = (omega (arith, h), refl)

  -- One more envelope, both queued and accepted.
  accept-IsOrdered :
      (e : Envelope) (w : World)
      → IsOrdered w
      → w.sent ++ messages (w.gateway.queue ++ (e ∷ [])) ≡ messages (w.accepted ++ (e ∷ []))
  accept-IsOrdered e w h =
      ap (λ ms. w.sent ++ ms) (messages-append w.gateway.queue (e ∷ []))
      ∙ sym (append_assoc w.sent (messages w.gateway.queue) (messages (e ∷ [])))
      ∙ ap (λ ms. ms ++ messages (e ∷ [])) h
      ∙ sym (messages-append w.accepted (e ∷ []))

  step-IsOrdered : (e : Event) (w : World) → IsOrdered w → IsOrdered (step e w)
  unfolding handle_record publish_next close
  step-IsOrdered (records none) w h = rw append-nil h
  step-IsOrdered (records (some e)) w h =
      ground (arith, append-nil w.accepted, h, accept-IsOrdered e w h)
  step-IsOrdered publishes w h = published-Ordered w.gateway w.sent w.gateway.queue refl ∙ h
  step-IsOrdered closes w h = h

  step-IsBounded :
      (e : Event) (w : World)
      → IsBounded w
      → IsBounded (step e w) × ((step e w).gateway.capacity ≡ w.gateway.capacity)
  unfolding handle_record publish_next close
  step-IsBounded (records none) w h = (h, refl)
  step-IsBounded (records (some e)) w h = ground (arith, length-append w.gateway.queue (e ∷ []))
  step-IsBounded publishes w h = published-IsBounded w.gateway w.gateway.queue h refl
  step-IsBounded closes w h = (h, refl)

  run-Ok :
      (es : List Event) (w : World)
      → IsOrdered w
      → IsBounded w
      → IsOrdered (run es w) × (length (run es w).gateway.queue ≤ w.gateway.capacity)
  unfolding run
  run-Ok [] w o b = (o, b)
  run-Ok (e ∷ es) w o b =
      let (b', same) = step-IsBounded e w b in
      let (o'', b'') = run-Ok es (step e w) (step-IsOrdered e w o) b' in
      (o'', omega (arith, b'', same))

  -- Whatever requests come, and whenever the loop takes an envelope and the gateway is closed: the
  -- messages that were given to the MQTT client, and behind them those of what is still in the
  -- queue, are, in order, the messages of exactly the envelopes that were answered with 200, save
  -- those that cannot be marshalled; and the queue never holds more than the capacity, which is
  -- 10000 when none that is positive is configured.
  pub run-IsOrdered :
      (n : ℤ) (es : List Event)
      → let w = run es (start n) in
        (w.sent ++ messages w.gateway.queue ≡ messages w.accepted)
        × (length w.gateway.queue ≤ capacity_of n)
  unfolding new
  run-IsOrdered n es = run-Ok es (start n) refl (omega arith)
