-- ===== src/Console/Matches/Table/Offers.antt =====
-- pages/MatchesPage.tsx: what a click on the page can ask of the backend.
use mr1v.Base.{
  not, map, select, In-select, All-In, ◌≡◌, refl, Bool, true, false, Option, none, some, [], ◌∷◌,
  String, str_eq, if◌then◌else◌, append-nil, All, All-append, In, inl, inr, Bool-cases,
}
use mr1v.Js.Text.{Text}
use mr1v.Js.Dict.{get, has, discard}
use mr1v.Console.Fetch.{Listing}
use mr1v.Console.View.{
  gather-map, gather-All, table, table_offers, table_offers-All, In-table_offers, In-append_left,
  row_offers, row_cells, gather, piece_offers, dialog_offers, drawn_offers,
}
use mr1v.Console.Matches.{Match, ServerQuery}
use mr1v.Console.Matches.Page.{
  Page, MatchValues, Request, get_matches, post_match, post_end, post_destroy, fetch_matches,
  handle_create, handle_end, handle_destroy, open_create, cancel_create, get_logs, get_server,
  handle_expand, fetch_logs, fetch_server, refresh_server,
}
use mr1v.Console.Matches.Views.{has_actions}
use mr1v.Console.Matches.Table.{
  Event, create_confirmed, create_cancelled, end_confirmed, destroy_confirmed, click, map_piece,
  columns, view, main_view, rules_box, expansion, expansion_offers, page_offers,
}

-- A match that is shown and under way.
abbrev pub IsUnderWay : Page → Match → Type 0
IsUnderWay p r = In r p.matches × (has_actions r ≡ true)

-- The requests that the page can ask for as it stands.
pub data Concerns (p : Page) : Request → Type 0 where
  fetches : Concerns p get_matches
  creates :
      (v : MatchValues) → p.create_open ≡ true → p.creating ≡ false → Concerns p (post_match v)
  ends : (r : Match) → IsUnderWay p r → Concerns p (post_end r.match_id)
  destroys : (r : Match) → IsUnderWay p r → Concerns p (post_destroy r.match_id)
  reads_logs :
      (r : Match)
      → In r p.matches
      → has r.match_id p.logs_fetched ≡ false
      → Concerns p (get_logs r.match_id)
  reads_server :
      (r : Match)
      → In r p.matches
      → has r.match_id p.server_fetched ≡ false
      → Concerns p (get_server r.match_id)
  refreshes : (r : Match) → IsUnderWay p r → Concerns p (get_server r.match_id)

abbrev pub AsksFor : Page → Event → Type 0
AsksFor p e = (validated : Option MatchValues) → All (Concerns p) (click validated e p).1

handle_create-Concerns :
    (p : Page) (validated : Option MatchValues)
    → p.create_open ≡ true
    → p.creating ≡ false
    → All (Concerns p) (handle_create validated p).1
unfolding handle_create
handle_create-Concerns p none e free = tt
handle_create-Concerns p (some v) e free = (creates v e free, tt)

-- An expanded row asks for what was not asked for before, a refresh for the server data.
handle_expand-Concerns :
    (p : Page) (r : Match) (expanded : Bool)
    → In r p.matches
    → All (Concerns p) (handle_expand expanded r.match_id p).1
unfolding handle_expand fetch_logs fetch_server
handle_expand-Concerns p r false i = tt
handle_expand-Concerns p r true i = elim (Bool-cases (has r.match_id p.logs_fetched)) [
  | inl l ↦ elim (Bool-cases (has r.match_id p.server_fetched)) [
    | inl s ↦ rw (l, s) tt
    | inr s ↦ rw (l, s) (reads_server r i s, tt)
  ]
  | inr l ↦ elim (Bool-cases (has r.match_id p.server_fetched)) [
    | inl s ↦ rw (l, s) (reads_logs r i l, tt)
    | inr s ↦ rw (l, s) (reads_logs r i l, (reads_server r i s, tt))
  ]
]

refresh_server-Concerns :
    (p : Page) (r : Match) → IsUnderWay p r → All (Concerns p) (refresh_server r.match_id p).1
unfolding refresh_server fetch_server
refresh_server-Concerns p r u =
    elim (Bool-cases (has r.match_id (discard r.match_id p.server_fetched))) [
      | inl e ↦ rw e tt
      | inr e ↦ rw e (refreshes r u, tt)
    ]

rules_box-AsksFor :
    (p : Page) (id : String) (awaited : Bool) (q : Option ServerQuery)
    → All (AsksFor p) (gather piece_offers (rules_box id awaited q))
unfolding click
rules_box-AsksFor p id awaited none = tt
rules_box-AsksFor p id true (some q) = tt
rules_box-AsksFor p id false (some q) = (λ v. tt, tt)

expansion-AsksFor :
    (is_expanded : String → Bool) (p : Page) (r : Match)
    → In r p.matches
    → All (AsksFor p) (expansion_offers (expansion is_expanded p r))
unfolding expansion click
expansion-AsksFor is_expanded p r i =
    let box =
      rules_box-AsksFor p r.match_id (has r.match_id p.server_loading)
        (get r.match_id p.server_cache) in
    (
      λ v. handle_expand-Concerns p r (not (is_expanded r.match_id)) i,
      elim (Bool-cases (is_expanded r.match_id)) [
        | inl e ↦ elim (Bool-cases (has_actions r)) [
          | inl u ↦ rw (e, u) (λ v. refresh_server-Concerns p r (i, u), box)
          | inr u ↦ rw (e, u) box
        ]
        | inr e ↦ rw e tt
      ],
    )

expansions-AsksFor :
    (is_expanded : String → Bool) (p : Page)
    → All (AsksFor p) (gather expansion_offers (map (expansion is_expanded p) p.matches))
expansions-AsksFor is_expanded p =
    rw (gather-map expansion_offers (expansion is_expanded p) p.matches) (
      gather-All (AsksFor p) (λ r. expansion_offers (expansion is_expanded p r)) p.matches
        (expansion-AsksFor is_expanded p))

map_piece-offers : (v : String) → piece_offers (map_piece v) ≡ []
map_piece-offers v = elim (Bool-cases (str_eq v "")) [ inl e ↦ rw e refl | inr e ↦ rw e refl ]

module _ (format : String → Text) where
  row-AsksFor :
      (p : Page) (r : Match)
      → In r p.matches
      → All (AsksFor p) (row_offers (row_cells (columns format) r))
  unfolding click handle_end handle_destroy
  row-AsksFor p r i = elim (Bool-cases (has_actions r)) [
    | inl e ↦
        rw (map_piece-offers r.map_name, e)
          (λ v. (ends r (i, e), tt), (λ v. (destroys r (i, e), tt), tt))
    | inr e ↦ rw (map_piece-offers r.map_name, e) tt
  ]

  dialog-AsksFor :
      (p : Page) (open_now busy : Bool)
      → p.create_open ≡ open_now
      → p.creating ≡ busy
      → All (AsksFor p) (
          if open_now
          then if busy then create_cancelled ∷ [] else create_confirmed ∷ create_cancelled ∷ []
          else [])
  unfolding click cancel_create
  dialog-AsksFor p true true e b = (λ v. tt, tt)
  dialog-AsksFor p true false e b = (λ v. handle_create-Concerns p v e b, (λ v. tt, tt))
  dialog-AsksFor p false busy e b = tt

  dialogs-AsksFor : (p : Page) → All (AsksFor p) (gather dialog_offers (main_view format p).dialogs)
  dialogs-AsksFor p = rw append-nil (dialog-AsksFor p p.create_open p.creating refl refl)

  rows_offered :
      (r : Match)
      → has_actions r ≡ true
      → In (end_confirmed r.match_id) (row_offers (row_cells (columns format) r))
        × In (destroy_confirmed r.match_id) (row_offers (row_cells (columns format) r))
  rows_offered r e = rw (map_piece-offers r.map_name, e) (inl refl, inr (inl refl))

  shown_offered :
      (p : Page) (r : Match) (e : Event)
      → In r p.matches
      → In e (row_offers (row_cells (columns format) r))
      → In e (drawn_offers (main_view format p))
  unfolding table
  shown_offered p r e i j =
      let l : Listing Match = record { rows = p.matches; loading = p.loading } in
      inr (
        inr (
          In-append_left e (table_offers (table (columns format) l))
            (gather dialog_offers (main_view format p).dialogs)
            (In-table_offers (columns format) e l r i j)))

  both_offered :
      (p : Page) (r : Match)
      → In r (select has_actions p.matches)
      → In (end_confirmed r.match_id) (drawn_offers (main_view format p))
        × In (destroy_confirmed r.match_id) (drawn_offers (main_view format p))
  both_offered p r i =
      let (shown, under_way) = In-select has_actions r p.matches i in
      let (ends_it, destroys_it) = rows_offered r under_way in
      (
        shown_offered p r (end_confirmed r.match_id) shown ends_it,
        shown_offered p r (destroy_confirmed r.match_id) shown destroys_it,
      )

  main_view-AsksFor : (p : Page) → All (AsksFor p) (drawn_offers (main_view format p))
  unfolding click fetch_matches open_create table
  main_view-AsksFor p =
      let l : Listing Match = record { rows = p.matches; loading = p.loading } in
      (
        λ v. tt,
        (
          λ v. (fetches, tt),
          All-append (AsksFor p) (table_offers (table (columns format) l))
              (gather dialog_offers (main_view format p).dialogs)
              (table_offers-All (columns format) (AsksFor p) l (row-AsksFor p)) (dialogs-AsksFor p),
        ),
      )

  -- Whichever rows are expanded, what the page draws offers to end and to destroy each match that is
  -- shown and under way. Whatever the user clicks, each request that goes out ends or destroys one
  -- of those or fetches its server data again, fetches the logs or the server data of a match that
  -- is shown, for which they were not asked before, fetches the list, or creates a match from the
  -- open dialog while no other one is being created.
  pub matches_view-AsksFor :
      (is_expanded : String → Bool) (p : Page)
      → All (AsksFor p) (page_offers (view format is_expanded p))
        × All
            (λ r.
              In (end_confirmed r.match_id) (page_offers (view format is_expanded p))
              × In (destroy_confirmed r.match_id) (page_offers (view format is_expanded p)))
            (select has_actions p.matches)
  unfolding view
  matches_view-AsksFor is_expanded p =
      let offered = drawn_offers (main_view format p) in
      let more = gather expansion_offers (map (expansion is_expanded p) p.matches) in
      (
        All-append (AsksFor p) offered more (main_view-AsksFor p)
            (expansions-AsksFor is_expanded p),
        All-In
            (λ r.
              In (end_confirmed r.match_id) (page_offers (view format is_expanded p))
              × In (destroy_confirmed r.match_id) (page_offers (view format is_expanded p)))
            (select has_actions p.matches)
            (λ r i.
              let (ends_it, destroys_it) = both_offered p r i in
              (
                In-append_left (end_confirmed r.match_id) offered more ends_it,
                In-append_left (destroy_confirmed r.match_id) offered more destroys_it,
              )),
      )
