-- ===== src/Server/Rooms/Fit.antt =====
-- internal/wxserver/store/store.go: rooms whose status fits their joiner, and ids that are unique.
pub mod Requests
pub mod Deleted
use mr1v.Base.{
  ℕ, ◌+◌, ◌≤◌, ◌≡◌, refl, subst, eq_iff, Bool, true, false, not, ◌&&◌, ◌||◌, Option, none, some,
  List, [], ◌∷◌, ◌++◌, String, str_eq, All, All-append, Bool-cases, inl, inr, ◌⊎◌, if◌then◌else◌,
  arith,
}
use mr1v.Server.Room.{Task}
use mr1v.Server.Rooms.{
  Status, waiting, ready, matched, completed, ended, Room, is_live, is_room, is_match, is_joiner,
  is_joinable, joined, left, ended_as, update_where, affects, new_room, create_room, join_room,
  leave_room, set_room_matched, delete_room, update_room_score, complete_room, sweep,
}
use mr1v.Server.Rooms.Handlers.{
  CreateRequest, Answer, create_request, join_request, leave_request, match_ended_request,
  round_update_request, inserted, join_found, join_result, leave_found, match_ended_in,
  final_status, trim_space,
}

-- A room that waits has no joiner, and one that is ready has one, unless a player was `deleted`.
abbrev pub fits : Bool → Status → Option String → Bool
fits deleted waiting none = true
fits deleted waiting (some o) = false
fits deleted ready none = deleted
fits deleted ready (some o) = true
fits deleted _ joiner = true

abbrev pub Fits : Bool → Room → Type 0
Fits deleted r = is_live r.deleted_at ≡ true → fits deleted r.status r.joiner_openid ≡ true

abbrev pub rows_with : String → List Room → ℕ
rows_with id [] = 0
rows_with id (r ∷ rows) = (if str_eq r.id id then 1 else 0) + rows_with id rows

-- An update that keeps ids and keeps every row fit.
module _ (test : Room → Bool) (f : Room → Room) where
  pub All-update_where :
      (Fits : Room → Type 0)
      → ((r : Room) → Fits r → Fits (f r))
      → (rows : List Room) → All Fits rows
      → All Fits (update_where test f rows)
  All-update_where Fits keep [] h = tt
  All-update_where Fits keep (r ∷ rows) (p, h) = elim (Bool-cases (test r)) [
    | inl e ↦ rw e (keep r p, All-update_where Fits keep rows h)
    | inr e ↦ rw e (p, All-update_where Fits keep rows h)
  ]

  pub rows_with-update_where :
      (id : String)
      → ((r : Room) → str_eq (f r).id id ≡ str_eq r.id id)
      → (rows : List Room) → rows_with id (update_where test f rows) ≡ rows_with id rows
  rows_with-update_where id same [] = refl
  rows_with-update_where id same (r ∷ rows) =
      ground (arith, same r, rows_with-update_where id same rows)

rows_with-append :
    (id : String) (xs ys : List Room) → rows_with id (xs ++ ys) ≡ rows_with id xs + rows_with id ys
rows_with-append id [] ys = omega arith
rows_with-append id (r ∷ xs) ys = omega (arith, rows_with-append id xs ys)

abbrev pub WellFormed : String → Bool → List Room → Type 0
WellFormed id deleted rows = All (Fits deleted) rows × (rows_with id rows ≤ 1)

module _ (id : String) (deleted : Bool) where
  update_where-WellFormed :
      (test : Room → Bool) (f : Room → Room) (rows : List Room)
      → ((r : Room) → Fits deleted r → Fits deleted (f r))
      → ((r : Room) → str_eq (f r).id id ≡ str_eq r.id id)
      → WellFormed id deleted rows
      → WellFormed id deleted (update_where test f rows)
  update_where-WellFormed test f rows keep same (h, n) = (
    All-update_where test f (Fits deleted) keep rows h,
    omega (arith, n, rows_with-update_where test f id same rows),
  )

  absent :
      (k : String) (rows : List Room)
      → affects (λ q. str_eq q.id k) rows ≡ false
      → rows_with k rows ≡ 0
  absent k [] h = refl
  absent k (r ∷ rows) h = ground (arith, absent k rows)

  pub create_room-WellFormed :
      (r : Room) (rows : List Room)
      → Fits deleted r
      → WellFormed id deleted rows
      → WellFormed id deleted (inserted (create_room r rows) rows).rooms
  unfolding create_room
  create_room-WellFormed r rows fit (h, n) =
      elim (Bool-cases (affects (λ q. str_eq q.id r.id) rows)) [
        | inl e ↦ rw e (h, n)
        | inr e ↦ rw e (
          All-append (Fits deleted) rows (r ∷ []) h (fit, tt),
          rw (rows_with-append id rows (r ∷ [])) (elim (Bool-cases (str_eq r.id id)) [
            | inl same ↦
                rw
                  (
                    same,
                    absent id rows (
                        subst (λ k. affects (λ q. str_eq q.id k) rows ≡ false)
                          ((eq_iff r.id id).0 same) e),
                  )
                  (omega arith)
            | inr other ↦ rw other (omega (arith, n))
          ]),
        )
      ]

  pub delete_room-WellFormed :
      (k s : String) (now : ℕ) (rows : List Room)
      → WellFormed id deleted rows
      → WellFormed id deleted (delete_room k s now rows)
  unfolding delete_room
  delete_room-WellFormed k s now rows =
      update_where-WellFormed _ _ rows (λ r fit alive. cc) (λ r. refl)

  pub leave_room-WellFormed :
      (k o : String) (now : ℕ) (rows : List Room)
      → WellFormed id deleted rows
      → WellFormed id deleted (leave_room k o now rows)
  unfolding leave_room
  leave_room-WellFormed k o now rows =
      update_where-WellFormed _ _ rows (λ r fit alive. refl) (λ r. refl)

  pub set_room_matched-WellFormed :
      (k m a : String) (now : ℕ) (rows : List Room)
      → WellFormed id deleted rows
      → WellFormed id deleted (set_room_matched k m a now rows)
  unfolding set_room_matched
  set_room_matched-WellFormed k m a now rows =
      update_where-WellFormed _ _ rows (λ r fit alive. refl) (λ r. refl)

  pub complete_room-WellFormed :
      (k : String) (now : ℕ) (rows : List Room)
      → WellFormed id deleted rows
      → WellFormed id deleted (complete_room k now rows)
  unfolding complete_room
  complete_room-WellFormed k now rows =
      update_where-WellFormed _ _ rows (λ r fit alive. refl) (λ r. refl)

  pub update_room_score-WellFormed :
      (m : String) (c j now : ℕ) (rows : List Room)
      → WellFormed id deleted rows
      → WellFormed id deleted (update_room_score m c j now rows)
  unfolding update_room_score
  update_room_score-WellFormed m c j now rows =
      update_where-WellFormed _ _ rows (λ r fit. fit) (λ r. refl)

  pub join_room-WellFormed :
      (k o : String) (now : ℕ) (rows : List Room)
      → WellFormed id deleted rows
      → WellFormed id deleted (join_result (λ n. true) now (join_room k o now rows) rows).rooms
  unfolding join_room
  join_room-WellFormed k o now rows w = elim (Bool-cases (affects (is_joinable k) rows)) [
    | inl e ↦ rw e (update_where-WellFormed _ _ rows (λ r fit alive. refl) (λ r. refl) w)
    | inr e ↦ rw e w
  ]

  pub sweep-WellFormed :
      (is_active : String → Bool) (now : ℕ) (ids : List String) (rows : List Room)
      → WellFormed id deleted rows
      → WellFormed id deleted (sweep is_active now ids rows)
  unfolding sweep
  sweep-WellFormed is_active now [] rows w = w
  sweep-WellFormed is_active now (k ∷ ids) rows w = elim (Bool-cases (is_active k)) [
    | inl e ↦ sweep-WellFormed is_active now ids _ (rw e w)
    | inr e ↦
        sweep-WellFormed is_active now ids _ (rw e (delete_room-WellFormed k "timeout" now rows w))
  ]
