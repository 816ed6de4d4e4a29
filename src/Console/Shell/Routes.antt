-- ===== src/Console/Shell/Routes.antt =====
-- The menu and the routes agree.
use mr1v.Base.{
  if◌then◌else◌, ◌==◌, Option-cases, none≢some, subst, ℕ, ◌≡◌, refl, inl, inr, Bool, true, false,
  Bool-cases, none, some, List, [], ◌∷◌, All, find_first, String, str_eq, eq_iff, arith, ap,
  some_inj, ◌∙◌, sym,
}
use mr1v.Console.Shell.{
  target_path, plain, PageRoute, page_routes, pathname, selected_key, menu_click, page, screen,
  failure, load_page, error_shown, login_replied, unwrap, Body, object, field, end, Fields,
  field_of,
}

-- Each page of the menu: its key leads to its path, the path shows it, and the menu marks it there.
abbrev RouteOk : PageRoute → Type 0
RouteOk r =
    (menu_click r.key ≡ some (pathname r))
    × (screen (pathname r) ≡ page r.key)
    × (selected_key (pathname r) ≡ r.key)

All-RouteOk : All RouteOk page_routes
unfolding menu_click screen selected_key
All-RouteOk = (
  (refl, refl, refl),
  (
    (refl, refl, refl),
    (
      (refl, refl, refl),
      (
        (refl, refl, refl),
        ((refl, refl, refl), ((refl, refl, refl), ((refl, refl, refl), ((refl, refl, refl), tt)))),
      ),
    ),
  ),
)

found_All {ℓ κ} :
    {A : Type ℓ} (P : A → Type κ) (test : A → Bool) (xs : List A) (x : A)
    → All P xs
    → find_first test xs ≡ some x
    → P x × (test x ≡ true)
found_All P test [] x h e = cc
found_All P test (y ∷ ys) x (p, h) e = elim (Bool-cases (test y)) [
  | inl hit ↦ let same = some_inj.0 (rw hit at e) in rw (← same) (p, hit)
  | inr miss ↦ found_All P test ys x h (rw miss at e)
]

-- Whatever entry is clicked, if the click leads anywhere then the path that it leads to shows the
-- page of that entry, and the menu marks the entry there.
pub menu_click-screen :
    (key path : String)
    → menu_click key ≡ some path
    → (screen path ≡ page key) × (selected_key path ≡ key)
unfolding menu_click
menu_click-screen key path e =
    elim (Option-cases (find_first (λ r. str_eq r.key key) page_routes)) [
      | inl miss ↦ absurd (none≢some (sym (ap target_path miss) ∙ e))
      | inr (r, hit) ↦
          let (ok, test) =
            found_All RouteOk (λ r. str_eq r.key key) page_routes r All-RouteOk hit in
          let same : r.key ≡ key = (eq_iff r.key key).0 test in
          let there : pathname r ≡ path = some_inj.0 (sym (ap target_path hit) ∙ e) in
          subst (λ k. (screen path ≡ page k) × (selected_key path ≡ k)) same
            (subst (λ q. (screen q ≡ page r.key) × (selected_key q ≡ r.key)) there (ok.1, ok.2))
    ]

-- A login that the backend refuses with status 401 loads the login page anew as well as showing the
-- error, since the interceptor takes every 401 for a session that ended; with any other status, or
-- with no reply, the error is all.
pub login_refused :
    (status : ℕ)
    → ((login_replied (failure (some status))).0 ≡ (
        if status == 401
        then load_page "/login" ∷ error_shown "用户名或密码错误" ∷ []
        else error_shown "用户名或密码错误" ∷ []))
      × ((login_replied (failure none)).0 ≡ error_shown "用户名或密码错误" ∷ [])
      × ((login_replied (failure (some status))).1 ≡ false)
unfolding login_replied
login_refused status = (ground arith, refl, refl)

-- `{ code: 0, data }`, as the backend writes its replies.
abbrev pub envelope : Body → Body
envelope b = object (field "code" (plain "0") (field "data" b end))

-- A reply that the backend wraps is unwrapped to what it holds, and a reply that lacks one of the
-- two fields is left alone.
pub unwrap_lem :
    (b : Body) (fs : Fields)
    → (unwrap (envelope b) ≡ b)
      × (field_of "code" fs ≡ none → unwrap (object fs) ≡ object fs)
      × (field_of "data" fs ≡ none → unwrap (object fs) ≡ object fs)
unfolding unwrap
unwrap_lem b fs = (refl, λ e. rw e, λ e. ground arith)
