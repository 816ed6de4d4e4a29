-- ===== src/Console/Matches/Requests/Logs.antt =====
-- The operation log of a match is asked for once, and its reply always ends the spinner.
use mr1v.Base.{
  append-nil, ℕ, ◌+◌, ◌≡◌, refl, Bool, true, false, ◌||◌, Option, none, some, List, [], ◌∷◌, ◌++◌,
  String, str_eq, eq_iff, if◌then◌else◌, arith,
}
use mr1v.Js.Dict.{get, has, get-put, has-add, has-discard}
use mr1v.Console.Agents.Ports.{or_nil}
use mr1v.Console.Matches.{OpLog}
use mr1v.Console.Matches.Page.{
  Page, Request, get_matches, post_match, post_end, post_destroy, get_logs, get_server, created,
  rejected, fetch_matches, fetched_matches, handle_create, create_replied, handle_end,
  handle_destroy, dispatched, fetch_logs, fetch_server, logs_replied, server_replied,
  refresh_server, handle_expand, search_rules, open_create, cancel_create,
}
use mr1v.Console.Matches.Requests.{
  World, asking, Waits, Step, refresh_matches, expand_row, refresh_row, create_sent, end_sent,
  destroy_sent, rules_searched, create_opened, create_cancelled, matches_answered, logs_answered,
  server_answered, match_answered, end_answered, destroy_answered, Reach, here, next, waiting,
  waiting-append, waiting-answered, is_logs,
}

abbrev pub is_some {ℓ} : {A : Type ℓ} → Option A → Bool
is_some none = false
is_some (some a) = true

module _ (id : String) where
  -- Of a page and the number of log requests that wait for the match.
  abbrev Ok : Page → ℕ → Type 0
  Ok p n =
      (n ≡ (if has id p.logs_loading then 1 else 0))
      × (has id p.logs_fetched ≡ (has id p.logs_loading || is_some (get id p.logs_cache)))

  fetch_logs-Ok :
      (k : String) (p : Page) (n : ℕ)
      → Ok p n
      → Ok (fetch_logs k p).0 (n + waiting (is_logs id) (fetch_logs k p).1)
  unfolding fetch_logs
  fetch_logs-Ok k p n h =
      ground (arith, has-add k id p.logs_fetched, has-add k id p.logs_loading, eq_iff k id)

  fetch_server-Ok :
      (k : String) (p : Page) (n : ℕ)
      → Ok p n
      → Ok (fetch_server k p).0 (n + waiting (is_logs id) (fetch_server k p).1)
  unfolding fetch_server
  fetch_server-Ok k p n h = ground arith

  logs_replied-Ok_other :
      (k : String) (r : Option (Option (List OpLog))) (p : Page) (n : ℕ)
      → Ok p ((if str_eq k id then 1 else 0) + n)
      → Ok (logs_replied k r p) n
  unfolding logs_replied
  logs_replied-Ok_other k none p n h =
      ground (arith, has-discard k id p.logs_loading, get-put k id [] p.logs_cache)
  logs_replied-Ok_other k (some body) p n h =
      ground (arith, has-discard k id p.logs_loading, get-put k id (or_nil body) p.logs_cache)

  abbrev WorldOk : World → Type 0
  WorldOk w = Ok w.page (waiting (is_logs id) w.pending)

  asking-Ok :
      (w : World) (r : Page × List Request)
      → Ok r.0 (waiting (is_logs id) w.pending + waiting (is_logs id) r.1)
      → WorldOk (asking w r)
  asking-Ok w (p, asked) h = rw (waiting-append (is_logs id) w.pending asked) h

  handle_expand-Ok :
      (expanded : Bool) (k : String) (p : Page) (n : ℕ)
      → Ok p n
      → Ok (handle_expand expanded k p).0 (n + waiting (is_logs id) (handle_expand expanded k p).1)
  unfolding handle_expand
  handle_expand-Ok false k p n h = ground arith
  handle_expand-Ok true k p n h =
      let first = fetch_logs k p in
      let second = fetch_server k first.0 in
      let h' = fetch_server-Ok k first.0 _ (fetch_logs-Ok k p n h) in
      rw (waiting-append (is_logs id) first.1 second.1) (ground arith)

  -- The reply to a request of another kind.
  answered-Ok :
      (w : World) (r : Request) (before after : List Request)
      → is_logs id r ≡ false
      → Waits w r before after
      → WorldOk w
      → Ok w.page (waiting (is_logs id) (before ++ after))
  answered-Ok w r before after other e h =
      let count = waiting-answered (is_logs id) r before after w.pending e in ground arith

  Step-Ok : {w v : World} → WorldOk w → Step w v → WorldOk v
  unfolding fetch_matches fetched_matches refresh_server fetch_server handle_create create_replied
      handle_end handle_destroy dispatched server_replied search_rules open_create cancel_create
  Step-Ok {w} h refresh_matches = asking-Ok w (fetch_matches w.page) (ground arith)
  Step-Ok {w} h (expand_row expanded k) =
      asking-Ok w (handle_expand expanded k w.page) (handle_expand-Ok expanded k w.page _ h)
  Step-Ok {w} h (refresh_row k) = asking-Ok w (refresh_server k w.page) (ground arith)
  Step-Ok {w} h (create_sent none) = asking-Ok w (handle_create none w.page) (ground arith)
  Step-Ok {w} h (create_sent (some v)) = asking-Ok w (handle_create (some v) w.page) (ground arith)
  Step-Ok {w} h (end_sent k) = asking-Ok w (handle_end k w.page) (ground arith)
  Step-Ok {w} h (destroy_sent k) = asking-Ok w (handle_destroy k w.page) (ground arith)
  Step-Ok h (rules_searched k v) = h
  Step-Ok h create_opened = h
  Step-Ok h create_cancelled = h
  Step-Ok {w} h (matches_answered none before after e) =
      answered-Ok w get_matches before after refl e h
  Step-Ok {w} h (matches_answered (some body) before after e) =
      answered-Ok w get_matches before after refl e h
  Step-Ok {w} h (logs_answered k r before after e) =
      logs_replied-Ok_other k r w.page (waiting (is_logs id) (before ++ after))
        (rw (← waiting-answered (is_logs id) (get_logs k) before after w.pending e) h)
  Step-Ok {w} h (server_answered k r before after e) =
      answered-Ok w (get_server k) before after refl e h
  Step-Ok {w} h (match_answered v (created k) before after e) =
      rw (waiting-append (is_logs id) (before ++ after) (get_matches ∷ []))
        (ground (arith, answered-Ok w (post_match v) before after refl e h))
  Step-Ok {w} h (match_answered v (rejected x) before after e) =
      rw append-nil (answered-Ok w (post_match v) before after refl e h)
  Step-Ok {w} h (end_answered k true n before after e) =
      rw (waiting-append (is_logs id) (before ++ after) (get_matches ∷ []))
        (ground (arith, answered-Ok w (post_end k) before after refl e h))
  Step-Ok {w} h (end_answered k false n before after e) =
      rw append-nil (answered-Ok w (post_end k) before after refl e h)
  Step-Ok {w} h (destroy_answered k true n before after e) =
      rw (waiting-append (is_logs id) (before ++ after) (get_matches ∷ []))
        (ground (arith, answered-Ok w (post_destroy k) before after refl e h))
  Step-Ok {w} h (destroy_answered k false n before after e) =
      rw append-nil (answered-Ok w (post_destroy k) before after refl e h)

  Reach-Ok : {w : World} → Reach w → WorldOk w
  unfolding has get
  Reach-Ok here = (refl, refl)
  Reach-Ok (next r s) = Step-Ok (Reach-Ok r) s

  -- In every state that can be reached, for every match: at most one request for its log waits; the
  -- spinner shows exactly while one waits; and once the log was asked for and no request waits, its
  -- rows are there.
  pub Reach-logs :
      (w : World)
      → Reach w
      → (waiting (is_logs id) w.pending ≡ (if has id w.page.logs_loading then 1 else 0))
        × (has id w.page.logs_fetched ≡ true
            → waiting (is_logs id) w.pending ≡ 0
            → is_some (get id w.page.logs_cache) ≡ true)
  Reach-logs w r = let h = Reach-Ok r in (h.0, ground arith)
