-- ===== src/Server/Consumer/Once.antt =====
-- internal/consumer/consumer.go: the end of a match is told at most once.
use mr1v.Base.{
  ℕ, ◌+◌, ◌≤◌, ◌≡◌, refl, sym, subst, Bool, true, false, none, some, List, [], ◌∷◌, ◌++◌, String,
  str_eq, eq_iff, if◌then◌else◌, arith, Bool-cases, inl, inr,
}
use mr1v.Server.Consumer.{
  MatchRow, Started, MatchEnd, BatchKind, Tables, Envelope, match_start, round_end, match_end,
  batch, unknown_type, Notice, round_update, match_ended, Handled, hits, set_state, update, affects,
  can_start, is_unfinished, told_end, with_start, with_end, with_batch, handle, on_messages,
}

abbrev pub tells_end : String → Notice → ℕ
tells_end id (round_update k a b) = 0
tells_end id (match_ended k) = if str_eq k id then 1 else 0

abbrev pub times_ended : String → List Notice → ℕ
times_ended id [] = 0
times_ended id (n ∷ ns) = tells_end id n + times_ended id ns

times_ended-append :
    (id : String) (ns ms : List Notice)
    → times_ended id (ns ++ ms) ≡ times_ended id ns + times_ended id ms
times_ended-append id [] ms = omega arith
times_ended-append id (n ∷ ns) ms = omega (arith, times_ended-append id ns ms)

-- Whether the match has a row that is not finished.
abbrev pub is_open : String → List MatchRow → ℕ
is_open id rs = if affects id is_unfinished rs then 1 else 0

can_start-unfinished : (s : String) → can_start s ≡ true → is_unfinished s ≡ true
can_start-unfinished s h = elim (Bool-cases (str_eq s "creating")) [
  | inl e ↦ rw ((eq_iff s "creating").0 e) refl
  | inr e ↦ rw ((eq_iff s "waiting").0 (ground (arith, e, h))) refl
]

row-start :
    (id k : String) (r : MatchRow)
    → hits id is_unfinished (set_state k can_start "playing" r) ≡ hits id is_unfinished r
row-start id k r = elim (Bool-cases (hits k can_start r)) [
  | inl e ↦ rw e ground (arith, can_start-unfinished r.state (ground (arith, e)))
  | inr e ↦ rw e refl
]

row-end :
    (id : String) (r : MatchRow)
    → hits id is_unfinished (set_state id is_unfinished "finished" r) ≡ false
row-end id r = elim (Bool-cases (hits id is_unfinished r)) [
  | inl e ↦ rw e ground arith
  | inr e ↦ rw e e
]

update-start :
    (id k : String) (rs : List MatchRow)
    → affects id is_unfinished (update k can_start "playing" rs) ≡ affects id is_unfinished rs
unfolding affects update
update-start id k [] = refl
update-start id k (r ∷ rs) = rw (row-start id k r, update-start id k rs) refl

update-end_same :
    (id : String) (rs : List MatchRow)
    → affects id is_unfinished (update id is_unfinished "finished" rs) ≡ false
unfolding affects update
update-end_same id [] = refl
update-end_same id (r ∷ rs) = rw (row-end id r, update-end_same id rs) refl

update-end_other :
    (id k : String) (rs : List MatchRow)
    → str_eq k id ≡ false
    → affects id is_unfinished (update k is_unfinished "finished" rs) ≡ affects id is_unfinished rs
unfolding affects update
update-end_other id k [] h = refl
update-end_other id k (r ∷ rs) h =
    ground (arith, update-end_other id k rs, eq_iff k id, eq_iff r.match_id k, eq_iff r.match_id id)

-- An event tells the end of a match only by finishing it.
abbrev Spends : String → Tables → Handled → Type 0
Spends id t o = times_ended id o.told + is_open id o.tables.matches ≤ is_open id t.matches

with_end-Spends_same :
    (ok : ℕ → Bool) (id : String) (d : MatchEnd) (t : Tables)
    → d.match_id ≡ id
    → Spends id t (with_end ok d t)
with_end-Spends_same ok id d t e = ground (
  arith,
  e,
  subst (λ k. affects id is_unfinished (update k is_unfinished "finished" t.matches) ≡ false)
      (sym e) (update-end_same id t.matches),
  eq_iff d.match_id id,
  subst (λ k. affects k is_unfinished t.matches ≡ affects id is_unfinished t.matches) (sym e) refl,
)

with_end-Spends_other :
    (ok : ℕ → Bool) (id : String) (d : MatchEnd) (t : Tables)
    → str_eq d.match_id id ≡ false
    → Spends id t (with_end ok d t)
with_end-Spends_other ok id d t h = ground (arith, h, update-end_other id d.match_id t.matches h)

with_start-Spends :
    (ok : ℕ → Bool) (id : String) (d : Started) (t : Tables) → Spends id t (with_start ok d t)
with_start-Spends ok id d t = ground (arith, update-start id d.match_id t.matches)

with_batch-Spends :
    (ok : ℕ → Bool) (id : String) (k : BatchKind) (m : String) (es : List (List String))
    (t : Tables)
    → Spends id t (with_batch ok k m es t)
with_batch-Spends ok id k m [] t = ground arith
with_batch-Spends ok id k m (e ∷ es) t = ground arith

handle-Spends :
    (ok : ℕ → Bool) (id : String) (e : Envelope) (t : Tables) → Spends id t (handle ok e t)
unfolding handle
handle-Spends ok id (match_start none) t = ground arith
handle-Spends ok id (match_start (some d)) t = with_start-Spends ok id d t
handle-Spends ok id (round_end none) t = ground arith
handle-Spends ok id (round_end (some d)) t = ground arith
handle-Spends ok id (match_end none) t = ground arith
handle-Spends ok id (match_end (some d)) t = elim (Bool-cases (str_eq d.match_id id)) [
  | inl e ↦ with_end-Spends_same ok id d t ((eq_iff d.match_id id).0 e)
  | inr e ↦ with_end-Spends_other ok id d t e
]
handle-Spends ok id (batch k none) t = ground arith
handle-Spends ok id (batch k (some d)) t = with_batch-Spends ok id k d.match_id d.events t
handle-Spends ok id unknown_type t = ground arith

on_messages-Spends :
    (id : String) (es : List ((ℕ → Bool) × Envelope)) (t : Tables)
    → times_ended id (on_messages es t).1 + is_open id (on_messages es t).0.matches
      ≤ is_open id t.matches
unfolding on_messages
on_messages-Spends id [] t = omega arith
on_messages-Spends id ((ok, e) ∷ es) t =
    let o = handle ok e t in
    omega (
      arith,
      times_ended-append id o.told (on_messages es o.tables).1,
      handle-Spends ok id e t,
      on_messages-Spends id es o.tables,
    )

-- Whatever messages come, in whatever order, repeated or not, and whichever statements fail, the
-- end of a match is told to the rooms' service at most once, and not at all when the match has no
-- unfinished row.
pub on_messages-once :
    (id : String) (es : List ((ℕ → Bool) × Envelope)) (t : Tables)
    → times_ended id (on_messages es t).1 ≤ (if affects id is_unfinished t.matches then 1 else 0)
on_messages-once id es t = omega (arith, on_messages-Spends id es t)

-- When all its statements succeed, the message that a match ended leaves no unfinished row of the
-- match, and the same message once more tells nothing, whichever statements then fail.
pub handle-match_end_again :
    (ok : ℕ → Bool) (d : MatchEnd) (t : Tables)
    → (affects d.match_id is_unfinished (handle (λ n. true) (match_end (some d)) t).tables.matches
        ≡ false)
      × ((handle ok (match_end (some d)) (handle (λ n. true) (match_end (some d)) t).tables).told
          ≡ [])
unfolding handle
handle-match_end_again ok d t =
    let finished = update-end_same d.match_id t.matches in
    (finished, rw (told_end, finished) (ground arith))
