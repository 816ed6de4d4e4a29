-- ===== src/Console/Matches/Requests/Server.antt =====
-- The server data of a match: when no request waits there is no spinner; and replies that come out of
-- order after a refresh.
use mr1v.Base.{
  ◌<◌, ◌∙◌, ap, append-nil, ℕ, ◌+◌, ◌≡◌, refl, Bool, true, false, none, some, List, [], ◌∷◌, ◌++◌,
  String, str_eq, eq_iff, if◌then◌else◌, arith,
}
use mr1v.Console.Matches.Requests.Logs.{is_some}
use mr1v.Js.Dict.{get-drop_key, get, has, discard, get-put, has-add, has-discard, str_eq_refl}
use mr1v.Console.Matches.Page.{
  Page, Queried, query_of, Request, get_matches, post_match, post_end, post_destroy, get_logs,
  get_server, created, rejected, fetch_matches, fetched_matches, handle_create, create_replied,
  handle_end, handle_destroy, dispatched, fetch_logs, fetch_server, logs_replied, server_replied,
  refresh_server, handle_expand, search_rules, open_create, cancel_create,
}
use mr1v.Console.Matches.Requests.{
  World, asking, Waits, Step, refresh_matches, expand_row, refresh_row, create_sent, end_sent,
  destroy_sent, rules_searched, create_opened, create_cancelled, matches_answered, logs_answered,
  server_answered, match_answered, end_answered, destroy_answered, Reach, here, next, waiting,
  waiting-append, waiting-answered, is_server,
}

module _ (id : String) where
  -- Of a page and the number of server requests that wait for the match.
  abbrev Ok : Page → ℕ → Type 0
  Ok p n =
      (has id p.server_loading ≡ true → 0 < n)
      × (has id p.server_fetched ≡ true → n ≡ 0 → is_some (get id p.server_cache) ≡ true)

  fetch_logs-Ok :
      (k : String) (p : Page) (n : ℕ)
      → Ok p n
      → Ok (fetch_logs k p).0 (n + waiting (is_server id) (fetch_logs k p).1)
  unfolding fetch_logs
  fetch_logs-Ok k p n h = ground arith

  fetch_server-Ok :
      (k : String) (p : Page) (n : ℕ)
      → Ok p n
      → Ok (fetch_server k p).0 (n + waiting (is_server id) (fetch_server k p).1)
  unfolding fetch_server
  fetch_server-Ok k p n h =
      ground (arith, has-add k id p.server_fetched, has-add k id p.server_loading, eq_iff k id)

  refresh_server-Ok :
      (k : String) (p : Page) (n : ℕ)
      → Ok p n
      → Ok (refresh_server k p).0 (n + waiting (is_server id) (refresh_server k p).1)
  unfolding refresh_server
  refresh_server-Ok k p n h = ground (
    arith,
    has-discard k id p.server_fetched,
    has-discard k k p.server_fetched,
    has-add k id (discard k p.server_fetched),
    has-add k id p.server_loading,
    get-drop_key k id p.server_cache,
    eq_iff k id,
    str_eq_refl k,
  )

  server_replied-Ok :
      (k : String) (r : Queried) (p : Page) (n : ℕ)
      → Ok p ((if str_eq k id then 1 else 0) + n)
      → Ok (server_replied k r p) n
  unfolding server_replied
  server_replied-Ok k r p n h =
      ground (arith, has-discard k id p.server_loading, get-put k id (query_of r) p.server_cache)

  abbrev WorldOk : World → Type 0
  WorldOk w = Ok w.page (waiting (is_server id) w.pending)

  asking-Ok :
      (w : World) (r : Page × List Request)
      → Ok r.0 (waiting (is_server id) w.pending + waiting (is_server id) r.1)
      → WorldOk (asking w r)
  asking-Ok w (p, asked) h = rw (waiting-append (is_server id) w.pending asked) h

  handle_expand-Ok :
      (expanded : Bool) (k : String) (p : Page) (n : ℕ)
      → Ok p n
      → Ok
          (handle_expand expanded k p).0
          (n + waiting (is_server id) (handle_expand expanded k p).1)
  unfolding handle_expand
  handle_expand-Ok false k p n h = ground arith
  handle_expand-Ok true k p n h =
      let first = fetch_logs k p in
      let second = fetch_server k first.0 in
      let h' = fetch_server-Ok k first.0 _ (fetch_logs-Ok k p n h) in
      rw (waiting-append (is_server id) first.1 second.1) (ground arith)

  -- The reply to a request of another kind.
  answered-Ok :
      (w : World) (r : Request) (before after : List Request)
      → is_server id r ≡ false
      → Waits w r before after
      → WorldOk w
      → Ok w.page (waiting (is_server id) (before ++ after))
  answered-Ok w r before after other e h =
      let count = waiting-answered (is_server id) r before after w.pending e in ground arith

  Step-Ok : {w v : World} → WorldOk w → Step w v → WorldOk v
  unfolding fetch_matches fetched_matches logs_replied handle_create create_replied handle_end
      handle_destroy dispatched search_rules open_create cancel_create
  Step-Ok {w} h refresh_matches = asking-Ok w (fetch_matches w.page) (ground arith)
  Step-Ok {w} h (expand_row expanded k) =
      asking-Ok w (handle_expand expanded k w.page) (handle_expand-Ok expanded k w.page _ h)
  Step-Ok {w} h (refresh_row k) =
      asking-Ok w (refresh_server k w.page) (refresh_server-Ok k w.page _ h)
  Step-Ok {w} h (create_sent none) = asking-Ok w (handle_create none w.page) (ground arith)
  Step-Ok {w} h (create_sent (some v)) = asking-Ok w (handle_create (some v) w.page) (ground arith)
  Step-Ok {w} h (end_sent k) = asking-Ok w (handle_end k w.page) (ground arith)
  Step-Ok {w} h (destroy_sent k) = asking-Ok w (handle_destroy k w.page) (ground arith)
  Step-Ok h (rules_searched k v) = h
  Step-Ok h create_opened = h
  Step-Ok h create_cancelled = h
  Step-Ok {w} h (matches_answered none before after e) =
      answered-Ok w get_matches before after refl e h
  Step-Ok {w} h (matches_answered (some body) before after e) =
      answered-Ok w get_matches before after refl e h
  Step-Ok {w} h (logs_answered k none before after e) =
      answered-Ok w (get_logs k) before after refl e h
  Step-Ok {w} h (logs_answered k (some body) before after e) =
      answered-Ok w (get_logs k) before after refl e h
  Step-Ok {w} h (server_answered k r before after e) =
      server_replied-Ok k r w.page (waiting (is_server id) (before ++ after))
        (rw (← waiting-answered (is_server id) (get_server k) before after w.pending e) h)
  Step-Ok {w} h (match_answered v (created k) before after e) =
      rw (waiting-append (is_server id) (before ++ after) (get_matches ∷ []))
        (ground (arith, answered-Ok w (post_match v) before after refl e h))
  Step-Ok {w} h (match_answered v (rejected x) before after e) =
      rw append-nil (answered-Ok w (post_match v) before after refl e h)
  Step-Ok {w} h (end_answered k true n before after e) =
      rw (waiting-append (is_server id) (before ++ after) (get_matches ∷ []))
        (ground (arith, answered-Ok w (post_end k) before after refl e h))
  Step-Ok {w} h (end_answered k false n before after e) =
      rw append-nil (answered-Ok w (post_end k) before after refl e h)
  Step-Ok {w} h (destroy_answered k true n before after e) =
      rw (waiting-append (is_server id) (before ++ after) (get_matches ∷ []))
        (ground (arith, answered-Ok w (post_destroy k) before after refl e h))
  Step-Ok {w} h (destroy_answered k false n before after e) =
      rw append-nil (answered-Ok w (post_destroy k) before after refl e h)

  Reach-Ok : {w : World} → Reach w → WorldOk w
  unfolding has get
  Reach-Ok here = (λ e. cc, λ e. cc)
  Reach-Ok (next r s) = Step-Ok (Reach-Ok r) s

  -- In every state that can be reached, for every match: if no request for its server data waits, no
  -- spinner shows, and if the data was asked for, it is there. So the replies always end the
  -- spinner, refreshes included.
  pub Reach-server :
      (w : World)
      → Reach w
      → waiting (is_server id) w.pending ≡ 0
      → (has id w.page.server_loading ≡ false)
        × (has id w.page.server_fetched ≡ true → is_some (get id w.page.server_cache) ≡ true)
  Reach-server w r e = let h = Reach-Ok r in (ground arith, ground arith)

  refresh_asks : (p : Page) → (refresh_server id p).1 ≡ get_server id ∷ []
  unfolding refresh_server
  refresh_asks p = ground (arith, has-discard id id p.server_fetched, str_eq_refl id)

  -- The page after a refresh whose own request was answered first, and the older one after it.
  abbrev pub crossed : World → Queried → Queried → Page
  crossed w old new = server_replied id old (server_replied id new (refresh_server id w.page).0)

  -- If the data of a match is refreshed while a request for it waits, the two replies can cross; the
  -- page then shows the reply to the older request, although the newer one was there before.
  pub stale_reply :
      (w : World) (old new : Queried) (before after : List Request)
      → Reach w
      → Waits w (get_server id) before after
      → Reach (record { page = crossed w old new; pending = before ++ after })
        × (get id (crossed w old new).server_cache ≡ some (query_of old))
  unfolding server_replied
  stale_reply w old new before after r e =
      let refreshed = next r (refresh_row id) in
      let newer =
        next refreshed (
          server_answered id new w.pending [] (ap (λ rs. w.pending ++ rs) (refresh_asks w.page))) in
      (
        next newer (server_answered id old before after (append-nil w.pending ∙ e)),
        rw (get-put, str_eq_refl id),
      )
