-- ===== src/Server/Guard/History.antt =====
-- internal/backend/backend.go: the sessions as their history, and the requests that need one.
use mr1v.Base.{
  ◌≡◌, refl, ap, Bool, true, false, not, ◌&&◌, ◌&&◌, ◌||◌, Option, none, some, List, [], ◌∷◌,
  String, str_eq, if◌then◌else◌, arith,
}
use mr1v.Js.Text.{Text}
use mr1v.Js.Dict.{get, get-put, get-drop_key}
use mr1v.Server.Guard.{
  Config, Request, passes, refuses, is_some, has_session, is_exempt, is_api, guard, handle_login,
  handle_logout, Event, logs_in, logs_out, happen, sessions_after,
}

-- The name and the password are those of the configuration.
abbrev pub is_admin : Config → Option (String × String) → Bool
is_admin cfg none = false
is_admin cfg (some (username, password)) =
    str_eq username cfg.admin_user && str_eq password cfg.admin_pass

-- The last event that concerns the token is a login with the right name and password.
abbrev pub signed_in : Config → String → List Event → Bool
signed_in cfg token [] = false
signed_in cfg token (logs_in t q ∷ earlier) =
    if str_eq t token && is_admin cfg q then true else signed_in cfg token earlier
signed_in cfg token (logs_out none ∷ earlier) = signed_in cfg token earlier
signed_in cfg token (logs_out (some c) ∷ earlier) =
    if str_eq c token then false else signed_in cfg token earlier

abbrev pub cookie_signed_in : Config → Option String → List Event → Bool
cookie_signed_in cfg none events = false
cookie_signed_in cfg (some token) events = signed_in cfg token events

module _ (cfg : Config) (token : String) where
  get-sessions_after :
      (events : List Event)
      → is_some (get token (sessions_after cfg events)) ≡ signed_in cfg token events
  unfolding sessions_after happen handle_login handle_logout get
  get-sessions_after [] = refl
  get-sessions_after (logs_in t none ∷ earlier) = ground (arith, get-sessions_after earlier)
  get-sessions_after (logs_in t (some (username, password)) ∷ earlier) = ground (
    arith,
    ap is_some (get-put t token username (sessions_after cfg earlier)),
    get-sessions_after earlier,
  )
  get-sessions_after (logs_out none ∷ earlier) = get-sessions_after earlier
  get-sessions_after (logs_out (some c) ∷ earlier) = ground (
    arith,
    ap is_some (get-drop_key c token (sessions_after cfg earlier)),
    get-sessions_after earlier,
  )

has_session-sessions_after :
    (cfg : Config) (cookie : Option String) (events : List Event)
    → has_session cookie (sessions_after cfg events) ≡ cookie_signed_in cfg cookie events
has_session-sessions_after cfg none events = refl
has_session-sessions_after cfg (some token) events = get-sessions_after cfg token events

-- Where a password is configured, a request to the interface, other than to log in, to log out and
-- for the health check, is let through exactly if it has the configured key or the cookie of a
-- session, that is a token for which the last login or logout was a login with the right name and
-- password; all others are refused with 401. This holds after any logins and logouts.
pub guard-sessions_after :
    (cfg : Config) (prefix : Text) (events : List Event) (q : Request)
    → str_eq cfg.admin_pass "" ≡ false
    → is_exempt prefix q.path ≡ false
    → is_api q.path ≡ true
    → guard cfg prefix (sessions_after cfg events) q ≡ (
        if (not (str_eq cfg.internal_api_key "") && str_eq q.api_key cfg.internal_api_key)
          || cookie_signed_in cfg q.cookie events
        then passes
        else refuses 401)
unfolding guard
guard-sessions_after cfg prefix events q secret guarded api =
    rw (secret, guarded, api, has_session-sessions_after cfg q.cookie events) (ground arith)
