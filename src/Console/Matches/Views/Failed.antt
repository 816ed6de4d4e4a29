-- ===== src/Console/Matches/Views/Failed.antt =====
-- pages/MatchesPage.tsx: what an expanded row shows once a request for its server data has failed.
use mr1v.Base.{◌≡◌, refl, false, str_eq, Option, none, some, [], ◌∷◌}
use mr1v.Js.Num.{ℤ}
use mr1v.Js.Text.{Text, is_empty, codes}
use mr1v.Js.Dict.{get, put, has, discard, get-put, has-discard, str_eq_refl}
use mr1v.Console.Matches.{Match}
use mr1v.Console.Matches.Page.{Page, ReplyError, or_text, unanswered, query_of, server_replied}
use mr1v.Console.Matches.Views.{alert, server_info_tab, players_tab, rules_tab, expanded_row}

-- The message of a failed request is the body's, or the error's own, or a fixed one.
abbrev pub failure : ReplyError → Text
failure e = or_text e.body_message (or_text e.own_message (codes "请求失败"))

or_text-truthy : (o : Option Text) (s : Text) → is_empty s ≡ false → is_empty (or_text o s) ≡ false
or_text-truthy none s h = h
or_text-truthy (some []) s h = h
or_text-truthy (some (c ∷ t)) s h = refl

failure-truthy : (e : ReplyError) → is_empty (failure e) ≡ false
failure-truthy e = or_text-truthy e.body_message _ (or_text-truthy e.own_message _ refl)

module _ (locale_compare : Text → Text → ℤ) where
  -- A failed request shows the same message in all three server tabs, whatever the search.
  unanswered_alerts :
      (e : ReplyError) (search : Text)
      → (server_info_tab (query_of (unanswered e)) ≡ alert (failure e))
        × (players_tab (query_of (unanswered e)) ≡ alert (failure e))
        × (rules_tab locale_compare (query_of (unanswered e)) search ≡ alert (failure e))
  unfolding server_info_tab players_tab rules_tab query_of
  unanswered_alerts e search = (rw (failure-truthy e), rw (failure-truthy e), rw (failure-truthy e))

  -- Once a request for the data of a match's server has failed, with an error that carries any
  -- messages or none, the row of the match shows in all three server tabs the first message that is
  -- not empty, of the response's body, of the error and of the page, which is never empty, whatever
  -- is searched for. The log tab, the refresh button and the rows of other matches are as before.
  pub server_replied-expanded_row :
      (e : ReplyError) (p : Page) (m other : Match)
      → str_eq m.match_id other.match_id ≡ false
      → let after = server_replied m.match_id (unanswered e) p in
        let row = expanded_row locale_compare after m in
        (row.server_tab ≡ alert (failure e))
        × (row.player_tab ≡ alert (failure e))
        × (row.rule_tab ≡ alert (failure e))
        × (is_empty (failure e) ≡ false)
        × (row.log_tab ≡ (expanded_row locale_compare p m).log_tab)
        × (row.refresh_shown ≡ (expanded_row locale_compare p m).refresh_shown)
        × (expanded_row locale_compare after other ≡ expanded_row locale_compare p other)
  unfolding server_replied expanded_row
  server_replied-expanded_row e p m other apart =
      let id = m.match_id in
      let cached : get id (put id (query_of (unanswered e)) p.server_cache)
          ≡ some (query_of (unanswered e)) =
        rw (get-put id id (query_of (unanswered e)) p.server_cache, str_eq_refl id) refl in
      let idle : has id (discard id p.server_loading) ≡ false =
        rw (has-discard id id p.server_loading, str_eq_refl id) refl in
      let cached' : get other.match_id (put id (query_of (unanswered e)) p.server_cache)
          ≡ get other.match_id p.server_cache =
        rw (get-put id other.match_id (query_of (unanswered e)) p.server_cache, apart) refl in
      let idle' : has other.match_id (discard id p.server_loading)
          ≡ has other.match_id p.server_loading =
        rw (has-discard id other.match_id p.server_loading, apart) refl in
      let tabs = λ (search : Text). unanswered_alerts e search in
      (
        rw (cached, idle) (tabs []).0,
        rw (cached, idle) (tabs []).1,
        rw (cached, idle) (tabs _).2,
        failure-truthy e,
        refl,
        refl,
        rw (cached', idle') refl,
      )
