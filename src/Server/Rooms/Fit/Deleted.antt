-- ===== src/Server/Rooms/Fit/Deleted.antt =====
-- internal/backend/backend.go, handleDeleteWxUser: the rooms that the deletion of a player leaves.
use mr1v.Base.{
  ℕ, ◌≡◌, refl, Bool, true, not, ◌&&◌, ◌||◌, Option, none, some, List, [], ◌∷◌, String, str_eq, All,
  select, Bool-cases, inl, inr, arith,
}
use mr1v.Server.Rows.{All-select}
use mr1v.Server.Rooms.{Room, Status, waiting, ready, matched, completed, ended, is_joiner}
use mr1v.Server.Rooms.Fit.{fits, Fits, All-update_where, WellFormed}
use mr1v.Server.Accounts.{Tables, has_user}
use mr1v.Server.Accounts.Manage.{has_feedback, rooms_without, delete_wx_user}
use mr1v.Server.Accounts.Delete.{rows_with-rooms_without}

fits-deleted :
    (d : Bool) (s : Status) (j : Option String) → fits d s j ≡ true → fits true s j ≡ true
fits-deleted d waiting none h = refl
fits-deleted d waiting (some o) h = h
fits-deleted d ready none h = refl
fits-deleted d ready (some o) h = refl
fits-deleted d matched j h = refl
fits-deleted d completed j h = refl
fits-deleted d (ended e) j h = refl

fits-vacant : (s : Status) → fits true s none ≡ true
fits-vacant waiting = refl
fits-vacant ready = refl
fits-vacant matched = refl
fits-vacant completed = refl
fits-vacant (ended e) = refl

All-Fits : (d : Bool) (rows : List Room) → All (Fits d) rows → All (Fits true) rows
All-Fits d [] h = tt
All-Fits d (r ∷ rows) (p, h) =
    (λ alive. fits-deleted d r.status r.joiner_openid (p alive), All-Fits d rows h)

WellFormed-deleted :
    (id : String) (d : Bool) (rows : List Room) → WellFormed id d rows → WellFormed id true rows
WellFormed-deleted id d rows (h, n) = (All-Fits d rows h, n)

rooms_without-WellFormed :
    (id openid : String) (d : Bool) (rows : List Room)
    → WellFormed id d rows
    → WellFormed id true (rooms_without openid rows)
rooms_without-WellFormed id openid d rows (h, n) = (
  All-update_where (λ r. is_joiner openid r.joiner_openid) (λ r. record r { joiner_openid = none })
      (Fits true) (λ r fit alive. fits-vacant r.status)
      (select (λ r. not (str_eq r.creator_openid openid)) rows)
      (All-select (Fits true) (λ r. not (str_eq r.creator_openid openid)) rows (All-Fits d rows h)),
  omega (arith, n, rows_with-rooms_without openid id rows),
)

pub delete_wx_user-WellFormed :
    (id : String) (d : Bool) (ok : ℕ → Bool) (openid : String) (t : Tables) (rows : List Room)
    → WellFormed id d rows
    → WellFormed id true (delete_wx_user ok openid t rows).2
unfolding delete_wx_user
delete_wx_user-WellFormed id d ok openid t rows w =
    let kept = WellFormed-deleted id d rows w in
    elim (Bool-cases
      (not (ok 0 && ok 1 && ok 2 && ok 3) || has_user openid t && has_feedback openid t)) [
        | inl failed ↦ rw failed kept
        | inr fine ↦ elim (Bool-cases (has_user openid t)) [
          | inl known ↦ elim (Bool-cases (ok 4)) [
            | inl done ↦ rw (fine, known, done) (rooms_without-WellFormed id openid d rows w)
            | inr undone ↦ rw (fine, known, undone) kept
          ]
          | inr unknown ↦ rw (fine, unknown) kept
        ]
      ]
