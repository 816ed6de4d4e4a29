-- ===== src/Server/Consumer.antt =====
-- internal/consumer/consumer.go: the events of the game servers, written to the database, and what
-- the rooms' service is told, where its address is configured. A statement that fails changes nothing.
-- `Once` is about what is told of the end of a match.
pub mod Once
pub mod Rows
use mr1v.Base.{
  ℕ, ◌+◌, ◌≡◌, Bool, true, false, not, ◌&&◌, ◌||◌, Option, none, some, List, [], ◌∷◌, ◌++◌, map,
  String, str_eq, if◌then◌else◌,
}

-- A row of manager_matches, as far as the statements read and write it.
pub record MatchRow : Type 0 where
  pub match_id : String
  pub state : String

-- The data of an event; `columns` are those that are only stored.
pub record Started : Type 0 where
  pub match_id : String
  pub columns : List String

pub record RoundEnd : Type 0 where
  pub match_id : String
  pub wins0 : ℕ
  pub wins1 : ℕ
  pub columns : List String

pub record MatchEnd : Type 0 where
  pub match_id : String
  pub wins0 : ℕ
  pub wins1 : ℕ
  pub columns : List String

pub data BatchKind : Type 0 where
  combat shoot position : BatchKind

pub record Batch : Type 0 where
  pub match_id : String
  pub events : List (List String)

pub record BatchRow : Type 0 where
  pub kind : BatchKind
  pub match_id : String
  pub columns : List String

pub record Log : Type 0 where
  pub match_id : String
  pub actor : String
  pub action : String

pub record Tables : Type 0 where
  pub matches : List MatchRow
  pub match_starts : List Started
  pub round_ends : List RoundEnd
  pub match_ends : List MatchEnd
  pub batches : List BatchRow
  pub logs : List Log

-- An envelope by its type; `none` is data that does not parse.
pub data Envelope : Type 0 where
  match_start : Option Started → Envelope
  round_end : Option RoundEnd → Envelope
  match_end : Option MatchEnd → Envelope
  batch : BatchKind → Option Batch → Envelope
  unknown_type : Envelope

pub data Notice : Type 0 where
  round_update : String → ℕ → ℕ → Notice
  match_ended : String → Notice

-- The tables after an event, whether the handler returns an error, and what was sent.
pub record Handled : Type 0 where
  pub tables : Tables
  pub failed : Bool
  pub told : List Notice

abbrev pub returns_error : Tables → List Notice → Handled
returns_error t ns = record { tables = t; failed = true; told = ns }

abbrev pub returns : Tables → List Notice → Handled
returns t ns = record { tables = t; failed = false; told = ns }

-- `UPDATE … SET state WHERE match_id = … AND …`, and the rows that it affects.
abbrev pub hits : String → (String → Bool) → MatchRow → Bool
hits id test r = str_eq r.match_id id && test r.state

abbrev pub set_state : String → (String → Bool) → String → MatchRow → MatchRow
set_state id test s r = if hits id test r then record r { state = s } else r

unfoldable pub update : String → (String → Bool) → String → List MatchRow → List MatchRow
update id test s [] = []
update id test s (r ∷ rs) = set_state id test s r ∷ update id test s rs

unfoldable pub affects : String → (String → Bool) → List MatchRow → Bool
affects id test [] = false
affects id test (r ∷ rs) = hits id test r || affects id test rs

abbrev pub can_start : String → Bool
can_start s = str_eq s "creating" || str_eq s "waiting"

abbrev pub is_unfinished : String → Bool
is_unfinished s = not (str_eq s "finished")

-- `ON CONFLICT (match_id) DO NOTHING`.
abbrev pub is_in {ℓ} : {A : Type ℓ} → (A → String) → String → List A → Bool
is_in key id [] = false
is_in key id (a ∷ rest) = str_eq (key a) id || is_in key id rest

abbrev pub insert_once {ℓ} : {A : Type ℓ} → (A → String) → A → List A → List A
insert_once key a rows = if is_in key (key a) rows then rows else rows ++ (a ∷ [])

abbrev pub log_of : String → String → Log
log_of id action = record { match_id = id; actor = "game"; action = action }

abbrev pub batch_row : BatchKind → String → List String → BatchRow
batch_row k id columns = record { kind = k; match_id = id; columns = columns }

-- What the service of the rooms is told at the end of a match, if a row changed.
abbrev pub told_end : MatchEnd → Bool → List Notice
told_end d true = round_update d.match_id d.wins0 d.wins1 ∷ match_ended d.match_id ∷ []
told_end d false = []

-- `handle`; `ok n` says whether the n-th statement of the handler succeeds.
module _ (ok : ℕ → Bool) where
  abbrev pub with_start : Started → Tables → Handled
  with_start d t =
      let inserted = record t {
        match_starts = insert_once (λ (x : Started). x.match_id) d t.match_starts;
      } in
      let playing = record inserted { matches = update d.match_id can_start "playing" t.matches } in
      let logged = record playing { logs = t.logs ++ (log_of d.match_id "match_started" ∷ []) } in
      if ok 0
      then (if ok 1
          then (if ok 2 then returns logged [] else returns_error playing [])
          else returns_error inserted [])
      else returns_error t []

  abbrev pub with_round : RoundEnd → Tables → Handled
  with_round d t =
      if ok 0
      then returns (record t { round_ends = t.round_ends ++ (d ∷ []) })
          (round_update d.match_id d.wins0 d.wins1 ∷ [])
      else returns_error t []

  abbrev pub with_end : MatchEnd → Tables → Handled
  with_end d t =
      let inserted = record t {
        match_ends = insert_once (λ (x : MatchEnd). x.match_id) d t.match_ends;
      } in
      let finished = record inserted {
        matches = update d.match_id is_unfinished "finished" t.matches;
      } in
      let logged = record finished { logs = t.logs ++ (log_of d.match_id "match_ended" ∷ []) } in
      let ns = told_end d (affects d.match_id is_unfinished t.matches) in
      if ok 0
      then (if ok 1
          then (if ok 2 then returns logged ns else returns_error finished ns)
          else returns_error inserted [])
      else returns_error t []

  abbrev pub with_batch : BatchKind → String → List (List String) → Tables → Handled
  with_batch k id [] t = returns t []
  with_batch k id (e ∷ es) t =
      if ok 0
      then returns (record t { batches = t.batches ++ map (batch_row k id) (e ∷ es) }) []
      else returns_error t []

  unfoldable pub handle : Envelope → Tables → Handled
  handle (match_start none) t = returns_error t []
  handle (match_start (some d)) t = with_start d t
  handle (round_end none) t = returns_error t []
  handle (round_end (some d)) t = with_round d t
  handle (match_end none) t = returns_error t []
  handle (match_end (some d)) t = with_end d t
  handle (batch k none) t = returns_error t []
  handle (batch k (some d)) t = with_batch k d.match_id d.events t
  handle unknown_type t = returns t []

-- Messages in the order in which they come, each with what its statements do. An error is logged,
-- and the next message is handled.
unfoldable pub on_messages : List ((ℕ → Bool) × Envelope) → Tables → Tables × List Notice
unfolding handle
on_messages [] t = (t, [])
on_messages ((ok, e) ∷ es) t =
    let o = handle ok e t in let later = on_messages es o.tables in (later.0, o.told ++ later.1)
