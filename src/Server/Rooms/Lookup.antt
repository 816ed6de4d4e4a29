-- ===== src/Server/Rooms/Lookup.antt =====
-- internal/wxserver/store/store.go: what a query finds after an update.
use mr1v.Base.{
  ◌≤◌, false, ◌≡◌, refl, Bool, true, Option, none, some, some_inj, List, [], ◌∷◌, String,
  Bool-cases, inl, inr, sym, if◌then◌else◌, arith,
}
use mr1v.Server.Rooms.{
  Room, is_room, is_match, is_joinable, update_where, affects, get_room, get_room_id_by_match_id,
}
use mr1v.Server.Rooms.Fit.{rows_with}

abbrev pub updated : (Room → Bool) → (Room → Room) → Option Room → Option Room
updated test f none = none
updated test f (some r) = some (if test r then f r else r)

module _ (test : Room → Bool) (f : Room → Room) where
  -- An update that keeps ids and deletions is seen by `GetRoom`.
  pub get_room-update_where :
      (id : String)
      → ((r : Room) → is_room id (f r) ≡ is_room id r)
      → (rows : List Room)
      → get_room id (update_where test f rows) ≡ updated test f (get_room id rows)
  unfolding get_room
  get_room-update_where id same [] = refl
  get_room-update_where id same (r ∷ rows) = elim (Bool-cases (test r)) [
    | inl e ↦ elim (Bool-cases (is_room id r)) [
      | inl hit ↦ rw (e, same r, hit, e) refl
      | inr miss ↦ rw (e, same r, miss) (get_room-update_where id same rows)
    ]
    | inr e ↦ elim (Bool-cases (is_room id r)) [
      | inl hit ↦ rw (e, hit, e) refl
      | inr miss ↦ rw (e, miss) (get_room-update_where id same rows)
    ]
  ]

  -- One that keeps ids, matches and deletions is not seen by `GetRoomIDByMatchID`.
  pub get_room_id_by_match_id-update_where :
      (match_id : String)
      → ((r : Room) → is_match match_id (f r) ≡ is_match match_id r)
      → ((r : Room) → (f r).id ≡ r.id)
      → (rows : List Room)
      → get_room_id_by_match_id match_id (update_where test f rows)
        ≡ get_room_id_by_match_id match_id rows
  unfolding get_room_id_by_match_id
  get_room_id_by_match_id-update_where m same ids [] = refl
  get_room_id_by_match_id-update_where m same ids (r ∷ rows) = elim (Bool-cases (test r)) [
    | inl e ↦ rw (e, same r, ids r, get_room_id_by_match_id-update_where m same ids rows) refl
    | inr e ↦ rw (e, get_room_id_by_match_id-update_where m same ids rows) refl
  ]

-- A test that the found room passes is passed by a row.
pub get_room-affects :
    (test : Room → Bool) (id : String) (rows : List Room) (r : Room)
    → get_room id rows ≡ some r
    → test r ≡ true
    → affects test rows ≡ true
unfolding get_room
get_room-affects test id [] r e h = cc
get_room-affects test id (q ∷ rows) r e h = elim (Bool-cases (is_room id q)) [
  | inl hit ↦ let same : some q ≡ some r = rw hit at e in rw (some_inj.0 same, h) refl
  | inr miss ↦ ground (arith, get_room-affects test id rows r (rw miss at e) h)
]

pub get_room-is_room :
    (id : String) (rows : List Room) (r : Room) → get_room id rows ≡ some r → is_room id r ≡ true
unfolding get_room
get_room-is_room id [] r e = cc
get_room-is_room id (q ∷ rows) r e = elim (Bool-cases (is_room id q)) [
  | inl hit ↦ let same : some q ≡ some r = rw hit at e in rw (sym (some_inj.0 same)) hit
  | inr miss ↦ get_room-is_room id rows r (rw miss at e)
]

-- The one room with an id that cannot be joined leaves none to join.
none_joinable :
    (id : String) (rows : List Room) → rows_with id rows ≡ 0 → affects (is_joinable id) rows ≡ false
none_joinable id [] h = refl
none_joinable id (r ∷ rows) h = ground (arith, none_joinable id rows)

pub get_room-vacancy :
    (id : String) (rows : List Room) (r : Room)
    → get_room id rows ≡ some r
    → rows_with id rows ≤ 1
    → is_joinable id r ≡ false
    → affects (is_joinable id) rows ≡ false
unfolding get_room
get_room-vacancy id [] r e one shut = refl
get_room-vacancy id (q ∷ rows) r e one shut = elim (Bool-cases (is_room id q)) [
  | inl here ↦
      let same : some q ≡ some r = rw here at e in
      let closed : is_joinable id q ≡ false = rw (some_inj.0 same) shut in
      ground (arith, closed, none_joinable id rows)
  | inr else_where ↦
      let fewer : rows_with id rows ≤ 1 = omega (arith, one) in
      ground (arith, get_room-vacancy id rows r (rw else_where at e) fewer shut, else_where)
]
