-- ===== src/Server/Consumer/Rows.antt =====
-- internal/consumer/consumer.go: the tables with `ON CONFLICT (match_id) DO NOTHING`.
use mr1v.Base.{
  ℕ, ◌+◌, ◌≤◌, ◌≡◌, refl, subst, Bool, false, none, some, List, [], ◌∷◌, ◌++◌, String, str_eq,
  eq_iff, if◌then◌else◌, arith, Bool-cases, inl, inr,
}
use mr1v.Server.Consumer.{
  Started, MatchEnd, Tables, Envelope, match_start, round_end, match_end, batch, unknown_type,
  is_in, insert_once, with_batch, handle, on_messages, BatchKind,
}

module _ {ℓ} {A : Type ℓ} (key : A → String) (id : String) where
  abbrev pub rows_of : List A → ℕ
  rows_of [] = 0
  rows_of (a ∷ rest) = (if str_eq (key a) id then 1 else 0) + rows_of rest

  rows_of-append : (xs ys : List A) → rows_of (xs ++ ys) ≡ rows_of xs + rows_of ys
  rows_of-append [] ys = omega arith
  rows_of-append (a ∷ rest) ys = omega (arith, rows_of-append rest ys)

  rows_of-absent : (rows : List A) → is_in key id rows ≡ false → rows_of rows ≡ 0
  rows_of-absent [] h = refl
  rows_of-absent (a ∷ rest) h = ground (arith, rows_of-absent rest)

  insert_once_unique :
      (a : A) (rows : List A) → rows_of rows ≤ 1 → rows_of (insert_once key a rows) ≤ 1
  insert_once_unique a rows h = elim (Bool-cases (is_in key (key a) rows)) [
    | inl e ↦ rw e h
    | inr e ↦
        rw (e, rows_of-append rows (a ∷ []))
          (elim (Bool-cases (str_eq (key a) id)) [
            | inl f ↦
                rw
                  (
                    f,
                    rows_of-absent rows
                        (subst (λ k. is_in key k rows ≡ false) ((eq_iff (key a) id).0 f) e),
                  )
                  (omega arith)
            | inr f ↦ rw f (omega (arith, h))
          ])
  ]

abbrev pub start_key : Started → String
start_key d = d.match_id

abbrev pub end_key : MatchEnd → String
end_key d = d.match_id

abbrev pub Unique : String → Tables → Type 0
Unique id t = (rows_of start_key id t.match_starts ≤ 1) × (rows_of end_key id t.match_ends ≤ 1)

with_batch-Unique :
    (ok : ℕ → Bool) (id : String) (k : BatchKind) (m : String) (es : List (List String))
    (t : Tables)
    → Unique id t
    → Unique id (with_batch ok k m es t).tables
with_batch-Unique ok id k m [] t h = h
with_batch-Unique ok id k m (e ∷ es) t h = ground (arith, h)

handle-Unique :
    (ok : ℕ → Bool) (id : String) (e : Envelope) (t : Tables)
    → Unique id t
    → Unique id (handle ok e t).tables
unfolding handle
handle-Unique ok id (match_start none) t h = h
handle-Unique ok id (match_start (some d)) t h =
    ground (arith, h, insert_once_unique start_key id d t.match_starts)
handle-Unique ok id (round_end none) t h = h
handle-Unique ok id (round_end (some d)) t h = ground arith
handle-Unique ok id (match_end none) t h = h
handle-Unique ok id (match_end (some d)) t h =
    ground (arith, h, insert_once_unique end_key id d t.match_ends)
handle-Unique ok id (batch k none) t h = h
handle-Unique ok id (batch k (some d)) t h = with_batch-Unique ok id k d.match_id d.events t h
handle-Unique ok id unknown_type t h = h

-- Whatever messages come and whichever statements fail, a match that has at most one row that says
-- that it started, and at most one that says how it ended, keeps them so.
pub on_messages-Unique :
    (id : String) (es : List ((ℕ → Bool) × Envelope)) (t : Tables)
    → Unique id t
    → Unique id (on_messages es t).0
unfolding on_messages
on_messages-Unique id [] t h = h
on_messages-Unique id ((ok, e) ∷ es) t h =
    on_messages-Unique id es (handle ok e t).tables (handle-Unique ok id e t h)
