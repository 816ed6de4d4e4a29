-- ===== src/Server/Guard.antt =====
-- internal/backend/backend.go: the login of the console, and which requests the backend lets through.
pub mod History
use mr1v.Base.{
  ◌≡◌, ◌↔◌, refl, sym, ◌∙◌, ap, Bool, true, false, not, ◌&&◌, ◌||◌, Option, none, some, List, [],
  ◌∷◌, ◌++◌, String, str_eq, eq_iff, ℕ, Bool-cases, inl, inr, ◌⊎◌, if◌then◌else◌, arith,
}
use mr1v.Js.Text.{Text, codes, text_eq, starts_with, has_char}
use mr1v.Js.Dict.{get, put, drop_key, get-put, get-drop_key}

pub record Config : Type 0 where
  pub admin_user : String
  pub admin_pass : String
  pub internal_api_key : String

-- What `authMiddleware` reads of a request; an absent header is the empty text.
pub record Request : Type 0 where
  pub path : Text
  pub api_key : String
  pub cookie : Option String

-- Let through, refused with a code, or given the page of the console.
pub data Verdict : Type 0 where
  passes : Verdict
  refuses : ℕ → Verdict
  serves_index : Verdict

-- The map `sessions`, from tokens to names.
abbrev pub Sessions : Type 0
Sessions = List (String × String)

abbrev pub is_some : Option String → Bool
is_some none = false
is_some (some s) = true

abbrev pub has_session : Option String → Sessions → Bool
has_session none sessions = false
has_session (some token) sessions = is_some (get token sessions)

abbrev pub without_first : Text → Text
without_first [] = []
without_first (c ∷ s) = s

abbrev pub is_exempt : (prefix : Text) → Text → Bool
is_exempt prefix path =
    text_eq path (prefix ++ codes "/auth/login")
    || text_eq path (prefix ++ codes "/auth/logout")
    || text_eq path (prefix ++ codes "/healthz")

abbrev pub has_key : Config → Request → Bool
has_key cfg q = not (str_eq cfg.internal_api_key "") && str_eq q.api_key cfg.internal_api_key

abbrev pub is_api : Text → Bool
is_api path = starts_with path (codes "/api/")

-- `path[1:]` of a path, which begins with a slash; the full stop is 46.
abbrev pub is_asset : Text → Bool
is_asset path = starts_with path (codes "/assets/") || has_char 46 (without_first path)

-- `authMiddleware`.
unfoldable pub guard : Config → (prefix : Text) → Sessions → Request → Verdict
unfolding get starts_with has_char
guard cfg prefix sessions q =
    if str_eq cfg.admin_pass ""
    then passes
    else if is_exempt prefix q.path
    then passes
    else if has_key cfg q
    then passes
    else if has_session q.cookie sessions
    then passes
    else if is_api q.path
    then refuses 401
    else if is_asset q.path
    then passes
    else serves_index

pub data Reply : Type 0 where
  done : Reply
  failed : ℕ → Reply

-- `handleLogin`: the reply, the cookie that is set, and the sessions. `none` is a body that does not
-- parse, `token` the random text.
unfoldable pub handle_login :
    Config
    → (token : String) → Option (String × String)
    → Sessions
    → Reply × Option String × Sessions
unfolding put
handle_login cfg token none sessions = (failed 400, none, sessions)
handle_login cfg token (some (username, password)) sessions =
    if not (str_eq username cfg.admin_user) || not (str_eq password cfg.admin_pass)
    then (failed 401, none, sessions)
    else (done, some token, put token username sessions)

unfoldable pub handle_logout : Option String → Sessions → Reply × Option String × Sessions
unfolding drop_key
handle_logout none sessions = (done, some "", sessions)
handle_logout (some cookie) sessions = (done, some "", drop_key cookie sessions)

-- What changes the sessions: requests to log in, each with the token drawn for it, and to log out.
pub data Event : Type 0 where
  logs_in : (token : String) → Option (String × String) → Event
  logs_out : Option String → Event

unfoldable pub happen : Config → Event → Sessions → Sessions
unfolding handle_login handle_logout
happen cfg (logs_in token q) sessions = (handle_login cfg token q sessions).2
happen cfg (logs_out cookie) sessions = (handle_logout cookie sessions).2

-- The sessions of a backend after these events, the newest of which stands first.
unfoldable pub sessions_after : Config → List Event → Sessions
unfolding happen
sessions_after cfg [] = []
sessions_after cfg (e ∷ earlier) = happen cfg e (sessions_after cfg earlier)
