-- ===== src/Server/Rooms/Fit/Requests.antt =====
-- internal/wxserver/handlers: every step keeps the rooms well-formed.
use mr1v.Base.{
  ℕ, ◌≡◌, refl, Bool, Option, none, some, List, String, str_eq, ◌||◌, Bool-cases, inl, inr, ◌⊎◌,
  arith,
}
use mr1v.Server.Rooms.{
  Room, new_room, create_room, join_room, leave_room, delete_room, update_room_score, complete_room,
}
use mr1v.Server.Rooms.Handlers.{
  CreateRequest, create_request, join_request, leave_request, match_ended_request,
  round_update_request, inserted, join_result, leave_found, match_ended_in, final_status,
  trim_space,
}
use mr1v.Server.Rooms.Steps.{
  Step, creates, joins, leaves, match_ends, round_ends, hub_leaves, hub_closes, hub_matches, sweeps,
  deletes_player, Reach, here, next,
}
use mr1v.Server.Rooms.Fit.{
  WellFormed, delete_room-WellFormed, leave_room-WellFormed, join_room-WellFormed,
  create_room-WellFormed, set_room_matched-WellFormed, complete_room-WellFormed,
  update_room_score-WellFormed, sweep-WellFormed,
}
use mr1v.Server.Rooms.Fit.Deleted.{delete_wx_user-WellFormed}

module _ (id : String) (deleted : Bool) where
  -- What changes the table in one way at most.
  either-WellFormed :
      (xs ys rows : List Room)
      → (xs ≡ rows) ⊎ (xs ≡ ys)
      → WellFormed id deleted rows
      → WellFormed id deleted ys
      → WellFormed id deleted xs
  either-WellFormed xs ys rows (inl e) w v = rw e w
  either-WellFormed xs ys rows (inr e) w v = rw e v

  create_request-WellFormed :
      (ok : ℕ → Bool) (now : ℕ) (k openid : String) (seen : List Room) (q : Option CreateRequest)
      (rows : List Room)
      → WellFormed id deleted rows
      → WellFormed id deleted (create_request ok now k openid seen q rows).rooms
  unfolding create_request
  create_request-WellFormed ok now k openid seen none rows w = w
  create_request-WellFormed ok now k openid seen (some q) rows w =
      let r =
        new_room k q.title openid q.password q.category (trim_space q.map_name) q.bot_test_mode
          now in
      either-WellFormed (create_request ok now k openid seen (some q) rows).rooms
        (inserted (create_room r rows) rows).rooms rows (ground arith) w
        (create_room-WellFormed id deleted r rows (λ alive. refl) w)

  join_request-WellFormed :
      (ok : ℕ → Bool) (now : ℕ) (k openid given : String) (room : Option Room) (password : String)
      (rows : List Room)
      → WellFormed id deleted rows
      → WellFormed id deleted (join_request ok now k openid given room password rows).rooms
  unfolding join_request
  join_request-WellFormed ok now k openid given none password rows w = w
  join_request-WellFormed ok now k openid given (some r) password rows w =
      either-WellFormed (join_request ok now k openid given (some r) password rows).rooms
        (join_result ok now (join_room k openid now rows) rows).rooms rows (ground arith) w
        (join_room-WellFormed id deleted k openid now rows w)

  leave_found-WellFormed :
      (ok : ℕ → Bool) (now : ℕ) (k openid : String) (r : Room) (rows : List Room)
      → WellFormed id deleted rows
      → WellFormed id deleted (leave_found ok now k openid r rows).rooms
  leave_found-WellFormed ok now k openid r rows w =
      elim (Bool-cases (str_eq r.creator_openid openid)) [
        | inl e ↦
            either-WellFormed (leave_found ok now k openid r rows).rooms
              (delete_room k "closed" now rows) rows (ground (arith, e)) w
              (delete_room-WellFormed id deleted k "closed" now rows w)
        | inr e ↦
            either-WellFormed (leave_found ok now k openid r rows).rooms
              (leave_room k openid now rows) rows (ground (arith, e)) w
              (leave_room-WellFormed id deleted k openid now rows w)
      ]

  leave_request-WellFormed :
      (ok : ℕ → Bool) (now : ℕ) (k openid : String) (room : Option Room) (rows : List Room)
      → WellFormed id deleted rows
      → WellFormed id deleted (leave_request ok now k openid room rows).rooms
  unfolding leave_request
  leave_request-WellFormed ok now k openid none rows w =
      either-WellFormed (leave_request ok now k openid none rows).rooms rows rows (ground arith) w w
  leave_request-WellFormed ok now k openid (some r) rows w =
      either-WellFormed (leave_request ok now k openid (some r) rows).rooms
        (leave_found ok now k openid r rows).rooms rows (ground arith) w
        (leave_found-WellFormed ok now k openid r rows w)

  match_ended_in-WellFormed :
      (ok : ℕ → Bool) (now : ℕ) (s : String) (found : Option String) (rows : List Room)
      → WellFormed id deleted rows
      → WellFormed id deleted (match_ended_in ok now s found rows).rooms
  match_ended_in-WellFormed ok now s none rows w = w
  match_ended_in-WellFormed ok now s (some k) rows w = elim (Bool-cases (str_eq s "finished")) [
    | inl e ↦
        either-WellFormed (match_ended_in ok now s (some k) rows).rooms (complete_room k now rows)
          rows (ground (arith, e)) w (complete_room-WellFormed id deleted k now rows w)
    | inr e ↦
        either-WellFormed (match_ended_in ok now s (some k) rows).rooms
          (delete_room k (final_status ok now s) now rows) rows (ground (arith, e)) w
          (delete_room-WellFormed id deleted k (final_status ok now s) now rows w)
  ]

module _ (id : String) where
  Step-WellFormed :
      {rows rows' : List Room} {deletes : Bool} (before : Bool)
      → WellFormed id before rows
      → Step rows deletes rows'
      → WellFormed id (deletes || before) rows'
  unfolding match_ended_request round_update_request
  Step-WellFormed {rows} before w (creates ok now k openid seen q) =
      create_request-WellFormed id before ok now k openid seen q rows w
  Step-WellFormed {rows} before w (joins ok now k openid given room password) =
      join_request-WellFormed id before ok now k openid given room password rows w
  Step-WellFormed {rows} before w (leaves ok now k openid room) =
      leave_request-WellFormed id before ok now k openid room rows w
  Step-WellFormed {rows} before w (match_ends ok now m s found) =
      either-WellFormed id before (match_ended_request ok now m s found rows).rooms
        (match_ended_in ok now s found rows).rooms rows (ground arith) w
        (match_ended_in-WellFormed id before ok now s found rows w)
  Step-WellFormed {rows} before w (round_ends ok now m c j found) =
      either-WellFormed id before (round_update_request ok now m c j found rows).rooms
        (update_room_score m c j now rows) rows (ground arith) w
        (update_room_score-WellFormed id before m c j now rows w)
  Step-WellFormed {rows} before w (hub_leaves k openid now) =
      leave_room-WellFormed id before k openid now rows w
  Step-WellFormed {rows} before w (hub_closes k now) =
      delete_room-WellFormed id before k "closed" now rows w
  Step-WellFormed {rows} before w (hub_matches k m addr now) =
      set_room_matched-WellFormed id before k m addr now rows w
  Step-WellFormed {rows} before w (sweeps is_active now ids) =
      sweep-WellFormed id before is_active now ids rows w
  Step-WellFormed {rows} before w (deletes_player ok openid t) =
      delete_wx_user-WellFormed id before ok openid t rows w

  -- In every table that requests, hubs, the sweep and the deletion of players can make, however their
  -- statements interleave: a room that is not deleted and waits has no joiner, one that is ready has
  -- one unless the deletion of a player was asked for, and no two rooms have the same id.
  pub Reach-WellFormed :
      (deleted : Bool) (rows : List Room) → Reach deleted rows → WellFormed id deleted rows
  Reach-WellFormed _ _ here = (tt, omega arith)
  Reach-WellFormed _ end (next {rows} {before = before} reached step) =
      Step-WellFormed before (Reach-WellFormed before rows reached) step
