-- ===== src/Server/Images.antt =====
-- internal/backend/backend.go: the images of the game server, one of which new matches run.
use mr1v.Base.{
  ℕ, ◌≡◌, refl, Bool, true, false, ◌&&◌, ◌||◌, Option, none, some, List, [], ◌∷◌, ◌++◌, map, String,
  str_eq, ltb, ◌==◌, if◌then◌else◌, arith, Bool-cases, inl, inr, ap,
}
use mr1v.Server.Scheduler.{Pick, picked, no_agent, none_on_latest, at_capacity, db_error}
use mr1v.Server.Creation
use mr1v.Server.Creation.{CreateMatchRequest, fail, handle_create_match}
use mr1v.Server.Creation.Ports.{IsProper}

-- A row of manager_rehlds_configs.
pub record ConfigRow : Type 0 where
  pub id : ℕ
  pub image : String
  pub version : String
  pub is_active : Bool

-- The active row with the greatest id.
abbrev pub newer : ConfigRow → Option ConfigRow → Option ConfigRow
newer r none = some r
newer r (some s) = if ltb s.id r.id then some r else some s

unfoldable pub newest_active : List ConfigRow → Option ConfigRow
newest_active [] = none
newest_active (r ∷ rows) =
    let rest = newest_active rows in if r.is_active then newer r rest else rest

abbrev pub image_in : Option ConfigRow → Option String
image_in none = none
image_in (some r) = some r.image

-- `activeRehldsImage` where its query does not fail.
unfoldable pub active_rehlds_image : List ConfigRow → Option String
unfolding newest_active
active_rehlds_image rows = image_in (newest_active rows)

abbrev pub deactivated : List ConfigRow → List ConfigRow
deactivated rows = map (λ (r : ConfigRow). record r { is_active = false }) rows

abbrev pub activated : ℕ → List ConfigRow → List ConfigRow
activated id rows =
    map (λ (r : ConfigRow). if r.id == id then record r { is_active = true } else r) rows

pub data Reply : Type 0 where
  done : Reply
  failed : ℕ → Reply

-- `handleActivateRehldsConfig` for an id that is a number; the Booleans say whether its two
-- statements succeed, of which the first is not looked at.
unfoldable pub handle_activate : (first second : Bool) → ℕ → List ConfigRow → Reply × List ConfigRow
handle_activate first second id rows =
    let quiet = if first then deactivated rows else rows in
    if second then (done, activated id quiet) else (failed 500, quiet)

-- `handleCreateRehldsConfig`; `id` is the new id, `none` a body that does not parse.
unfoldable pub handle_create :
    (first second : Bool)
    → ℕ
    → Option (String × String × Bool)
    → List ConfigRow
    → Reply × List ConfigRow
handle_create first second id none rows = (failed 400, rows)
handle_create first second id (some (image, version, active)) rows =
    if str_eq image ""
    then (failed 400, rows)
    else (let quiet = if active && first then deactivated rows else rows in
        if second
        then (
          done,
          quiet ++ (record { id = id; image = image; version = version; is_active = active } ∷ []),
        )
        else (failed 500, quiet))

abbrev pub has_config : ℕ → List ConfigRow → Bool
has_config id [] = false
has_config id (r ∷ rows) = r.id == id || has_config id rows

-- After the first statement only rows with the id are active.
none_active :
    (id : ℕ) (rows : List ConfigRow)
    → has_config id rows ≡ false
    → newest_active (activated id (deactivated rows)) ≡ none
unfolding newest_active
none_active id [] h = refl
none_active id (r ∷ rows) h = elim (Bool-cases (r.id == id)) [
  | inl e ↦ absurd (ground (arith, e, h))
  | inr e ↦ rw e (none_active id rows (ground (arith, e, h)))
]

one_active :
    (r : ConfigRow) (before after : List ConfigRow)
    → has_config r.id before ≡ false
    → has_config r.id after ≡ false
    → newest_active (activated r.id (deactivated (before ++ (r ∷ after))))
      ≡ some (record r { is_active = true })
unfolding newest_active
one_active r [] after b a =
    let own : (r.id == r.id) ≡ true = ground arith in rw (own, none_active r.id after a) refl
one_active r (s ∷ before) after b a = elim (Bool-cases (s.id == r.id)) [
  | inl e ↦ absurd (ground (arith, e, b))
  | inr e ↦ rw e (one_active r before after (ground (arith, e, b)) a)
]

no_image :
    (random_map : String → String) (published inserted : Bool) (id : String) (pick : Pick)
    (q : CreateMatchRequest) (rows : List Creation.MatchRow)
    → IsProper q
    → (handle_create_match random_map published inserted (some id) pick none (some q) rows).reply
      ≡ fail 503
unfolding handle_create_match
no_image random_map published inserted id (picked u i p) q rows (a, b) = rw (a, b) refl
no_image random_map published inserted id no_agent q rows (a, b) = rw (a, b) refl
no_image random_map published inserted id none_on_latest q rows (a, b) = rw (a, b) refl
no_image random_map published inserted id at_capacity q rows (a, b) = rw (a, b) refl
no_image random_map published inserted id db_error q rows (a, b) = rw (a, b) refl

-- Activating an image that is there, with both statements done, makes it the one that new matches
-- run. An id that is not there is answered as done too, and leaves no active image: every proper
-- request for a match is refused from then on.
pub handle_activate-active_rehlds_image :
    (r : ConfigRow) (before after : List ConfigRow) (unknown : ℕ) (random_map : String → String)
    (published inserted : Bool) (match_id : String) (pick : Pick) (q : CreateMatchRequest)
    (matches : List Creation.MatchRow)
    → has_config r.id before ≡ false
    → has_config r.id after ≡ false
    → has_config unknown (before ++ (r ∷ after)) ≡ false
    → IsProper q
    → let known = handle_activate true true r.id (before ++ (r ∷ after)) in
      let lost = handle_activate true true unknown (before ++ (r ∷ after)) in
      (active_rehlds_image known.1 ≡ some r.image)
      × (lost.0 ≡ done)
      × ((handle_create_match random_map published inserted
            (some match_id)
            pick
            (active_rehlds_image lost.1)
            (some q)
            matches).reply
          ≡ fail 503)
unfolding handle_activate active_rehlds_image
handle_activate-active_rehlds_image r before after unknown random_map published inserted match_id
      pick q matches b a u p =
    let rows = before ++ (r ∷ after) in
    (
      ap image_in (one_active r before after b a),
      refl,
      rw (none_active unknown rows u)
          (no_image random_map published inserted match_id pick q matches p),
    )
