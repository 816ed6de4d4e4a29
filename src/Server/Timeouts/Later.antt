-- ===== src/Server/Timeouts/Later.antt =====
-- internal/backend/backend.go: reports of agents and rounds of the sweep, in any order, and the
-- matches whose end the rooms' service hears from them.
use mr1v.Base.{
  ◌≡◌, refl, sym, ◌∙◌, true≢false, subst, eq_iff, Bool, true, false, not, ◌&&◌, ◌||◌, Bool-cases,
  inl, inr, ◌⊎◌, List, [], ◌∷◌, ◌++◌, All, String, str_eq, if◌then◌else◌, arith,
}
use mr1v.Server.Consumer.{MatchRow, hits, set_state, update, affects}
use mr1v.Server.Status.{
  ContainerState, running, error, stopped, other_state, StatusReport, any_state, is_live, on_status,
}
use mr1v.Server.Timeouts.{Notified, sweep_timeout_matches}

-- The query of `sweepTimeoutMatches`; `is_old` says whether a row is older than its state allows.
abbrev pub can_time_out : String → Bool
can_time_out s = str_eq s "waiting" || str_eq s "playing" || str_eq s "creating"

unfoldable pub stale_matches : (is_old : MatchRow → Bool) → List MatchRow → List String
stale_matches is_old [] = []
stale_matches is_old (r ∷ rows) =
    if can_time_out r.state && is_old r
    then r.match_id ∷ stale_matches is_old rows
    else stale_matches is_old rows

-- What comes later: a report of an agent's, or a round of the sweep.
pub data Later : Type 0 where
  reports : (ok : Bool) → StatusReport → Later
  sweeps : (is_old : MatchRow → Bool) (published updated : String → Bool) → Later

abbrev pub ids_told : List Notified → List String
ids_told [] = []
ids_told (n ∷ ns) = n.match_id ∷ ids_told ns

-- The matches whose end the rooms' service hears.
unfoldable pub told_later : List Later → List MatchRow → List String
unfolding on_status sweep_timeout_matches stale_matches
told_later [] rows = []
told_later (reports ok r ∷ ls) rows =
    let after = on_status ok r rows in after.ended ++ told_later ls after.matches
told_later (sweeps is_old published updated ∷ ls) rows =
    let swept = sweep_timeout_matches published updated (stale_matches is_old rows) rows in
    ids_told swept.told ++ told_later ls swept.matches

abbrev is_running : ContainerState → Bool
is_running running = true
is_running _ = false

-- Not a report that the match's container runs.
abbrev pub not_started : String → Later → Bool
not_started id (reports ok r) = not (str_eq r.match_id id && is_running r.state)
not_started id (sweeps is_old published updated) = true

abbrev pub is_told : String → List String → Bool
is_told id [] = false
is_told id (k ∷ ks) = str_eq k id || is_told id ks

is_told-append :
    (id : String) (xs ys : List String)
    → is_told id xs ≡ false
    → is_told id ys ≡ false
    → is_told id (xs ++ ys) ≡ false
is_told-append id [] ys h k = k
is_told-append id (x ∷ xs) ys h k =
    ground (arith, λ (later : is_told id xs ≡ false). is_told-append id xs ys later k)

-- No row of the match is live.
abbrev pub IsOver : String → List MatchRow → Type 0
IsOver id rows = affects id is_live rows ≡ false

-- A state that is not live, and one that is written to another match.
set_state-over :
    (id k s : String) (test : String → Bool) (r : MatchRow)
    → (is_live s ≡ false) ⊎ (str_eq k id ≡ false)
    → hits id is_live r ≡ false
    → hits id is_live (set_state k test s r) ≡ false
set_state-over id k s test r ends h = elim (Bool-cases (hits k test r)) [
  | inl e ↦ elim ends [
    | inl over ↦ rw e (ground (arith, over))
    | inr other ↦
        let own : str_eq r.match_id k ≡ true = ground (arith, e) in
        let foreign : str_eq r.match_id id ≡ false =
          subst (λ m. str_eq m id ≡ false) (sym ((eq_iff r.match_id k).0 own)) other in
        rw (e, foreign) refl
  ]
  | inr e ↦ rw e h
]

update-IsOver :
    (id k s : String) (test : String → Bool) (rows : List MatchRow)
    → (is_live s ≡ false) ⊎ (str_eq k id ≡ false)
    → IsOver id rows
    → IsOver id (update k test s rows)
unfolding affects update
update-IsOver id k s test [] ends h = refl
update-IsOver id k s test (r ∷ rows) ends h =
    let here : hits id is_live r ≡ false = ground (arith, h) in
    let there : IsOver id rows = ground (arith, h) in
    rw (set_state-over id k s test r ends here, update-IsOver id k s test rows ends there) refl

-- After an error every row of the match is over.
pub update-error :
    (id : String) (rows : List MatchRow) → IsOver id (update id any_state "error" rows)
unfolding affects update
update-error id [] = refl
update-error id (r ∷ rows) = rw (update-error id rows) (elim (Bool-cases (hits id any_state r)) [
  | inl e ↦ rw e (ground (arith, e))
  | inr e ↦ rw e (ground (arith, e))
])

on_status-IsOver :
    (id : String) (ok : Bool) (r : StatusReport) (rows : List MatchRow)
    → not_started id (reports ok r) ≡ true
    → IsOver id rows
    → IsOver id (on_status ok r rows).matches × (is_told id (on_status ok r rows).ended ≡ false)
unfolding on_status
on_status-IsOver id ok r rows quiet over = by_state ok r.state refl
  where
    by_state :
        (ok : Bool) (s : ContainerState)
        → r.state ≡ s
        → IsOver id (on_status ok r rows).matches × (is_told id (on_status ok r rows).ended ≡ false)
    by_state false running e = rw e (over, refl)
    by_state true running e =
        let other : str_eq r.match_id id ≡ false = ground (arith, rw e at quiet) in
        rw e (update-IsOver id r.match_id "waiting" any_state rows (inr other) over, refl)
    by_state false error e = rw e (over, refl)
    by_state true error e =
        rw e (update-IsOver id r.match_id "error" any_state rows (inl refl) over, refl)
    by_state false stopped e = rw e (over, refl)
    by_state true stopped e = rw e (
      update-IsOver id r.match_id "error" is_live rows (inl refl) over,
      elim (Bool-cases (str_eq r.match_id id)) [
        | inl own ↦
            rw
              (subst (λ m. affects m is_live rows ≡ false) (sym ((eq_iff r.match_id id).0 own))
                over)
              refl
        | inr other ↦ elim (Bool-cases (affects r.match_id is_live rows)) [
          | inl live ↦ rw (live, other) refl
          | inr dead ↦ rw dead refl
        ]
      ],
    )
    by_state ok other_state e = rw e (over, refl)

not_live : (s l : String) → is_live l ≡ true → is_live s ≡ false → str_eq s l ≡ false
not_live s l live over = elim (Bool-cases (str_eq s l)) [
  | inl same ↦
      absurd (true≢false (sym live ∙ subst (λ k. is_live k ≡ false) ((eq_iff s l).0 same) over))
  | inr other ↦ other
]

can_time_out-live : (s : String) → is_live s ≡ false → can_time_out s ≡ false
can_time_out-live s h =
    rw (not_live s "waiting" refl h, not_live s "playing" refl h, not_live s "creating" refl h) refl

stale_matches-IsOver :
    (id : String) (is_old : MatchRow → Bool) (rows : List MatchRow)
    → IsOver id rows
    → is_told id (stale_matches is_old rows) ≡ false
unfolding affects stale_matches
stale_matches-IsOver id is_old [] over = refl
stale_matches-IsOver id is_old (r ∷ rows) over =
    let later = stale_matches-IsOver id is_old rows (ground (arith, over)) in
    elim (Bool-cases (str_eq r.match_id id)) [
      | inl own ↦ rw (can_time_out-live r.state (ground (arith, own, over))) later
      | inr other ↦ elim (Bool-cases (can_time_out r.state && is_old r)) [
        | inl hit ↦ rw (hit, other) later
        | inr miss ↦ rw miss later
      ]
    ]

sweep_timeout_matches-IsOver :
    (id : String) (published updated : String → Bool) (ids : List String) (rows : List MatchRow)
    → is_told id ids ≡ false
    → IsOver id rows
    → let swept = sweep_timeout_matches published updated ids rows in
      IsOver id swept.matches × (is_told id (ids_told swept.told) ≡ false)
unfolding sweep_timeout_matches
sweep_timeout_matches-IsOver id published updated [] rows h over = (over, refl)
sweep_timeout_matches-IsOver id published updated (k ∷ ids) rows h over =
    let other : str_eq k id ≡ false = ground (arith, h) in
    let rest : is_told id ids ≡ false = ground (arith, h) in
    elim (Bool-cases (updated k)) [
      | inl e ↦
          let (over', told) =
            sweep_timeout_matches-IsOver id published updated ids
              (update k any_state "timeout" rows) rest
              (update-IsOver id k "timeout" any_state rows (inl refl) over) in
          rw (e, other) (over', told)
      | inr e ↦
          let (over', told) =
            sweep_timeout_matches-IsOver id published updated ids rows rest over in
          rw (e, other) (over', told)
    ]

pub told_later-IsOver :
    (id : String) (ls : List Later) (rows : List MatchRow)
    → All (λ l. not_started id l ≡ true) ls
    → IsOver id rows
    → is_told id (told_later ls rows) ≡ false
unfolding told_later
told_later-IsOver id [] rows quiet over = refl
told_later-IsOver id (reports ok r ∷ ls) rows (q, qs) over =
    let (over', told) = on_status-IsOver id ok r rows q over in
    is_told-append id (on_status ok r rows).ended (told_later ls (on_status ok r rows).matches) told
      (told_later-IsOver id ls (on_status ok r rows).matches qs over')
told_later-IsOver id (sweeps is_old published updated ∷ ls) rows (q, qs) over =
    let swept = sweep_timeout_matches published updated (stale_matches is_old rows) rows in
    let (over', told) =
      sweep_timeout_matches-IsOver id published updated (stale_matches is_old rows) rows
        (stale_matches-IsOver id is_old rows over) over in
    is_told-append id (ids_told swept.told) (told_later ls swept.matches) told
      (told_later-IsOver id ls swept.matches qs over')
