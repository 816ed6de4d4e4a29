-- ===== src/Console/Shell.antt =====
-- App.tsx, api.ts and pages/LoginPage.tsx: the routes and the menu, the unwrapping of replies, and
-- the login.
pub mod Routes
pub mod View
use Prim.Native.String.{◌++◌ as text_append}
use mr1v.Base.{
  ℕ, ◌≡◌, refl, ◌++◌, Bool, true, false, ◌&&◌, Option, none, some, List, [], ◌∷◌, map, find_first,
  String, str_eq, ◌==◌, if◌then◌else◌,
}

-- One page of the menu; what it is drawn with is left out.
pub record PageRoute : Type 0 where
  pub key : String
  pub path : String
  pub label : String

abbrev route : String → String → PageRoute
route key label = record { key = key; path = key; label = label }

abbrev pub page_routes : List PageRoute
page_routes =
    route "matches" "比赛管理"
    ∷ route "agents" "Agent 管理"
    ∷ route "rehlds" "Rehlds 镜像"
    ∷ route "maps" "地图池"
    ∷ route "wx-rooms" "房间列表"
    ∷ route "wx-users" "微信用户"
    ∷ route "legacy-players" "老玩家列表"
    ∷ route "feedback" "改进建议"
    ∷ []

-- `/${r.path}`.
abbrev pub pathname : PageRoute → String
pathname r = text_append "/" r.path

abbrev key_or : Option PageRoute → String
key_or none = "matches"
key_or (some r) = r.key

-- The menu entry that is marked at a path.
unfoldable pub selected_key : String → String
selected_key path = key_or (find_first (λ r. str_eq path (pathname r)) page_routes)

abbrev pub target_path : Option PageRoute → Option String
target_path none = none
target_path (some target) = some (pathname target)

-- `onClick` of the menu: where it navigates to, if the key is known.
unfoldable pub menu_click : String → Option String
menu_click key = target_path (find_first (λ r. str_eq r.key key) page_routes)

-- What a path shows: the login, a page by its key, or a redirect to another path.
pub data Screen : Type 0 where
  login : Screen
  page : String → Screen
  redirect : String → Screen

-- The two nested `Routes`. A path ends in no slash.
unfoldable pub screen : String → Screen
screen path =
    if str_eq path "/login"
    then login
    else elim (find_first (λ r. str_eq path (pathname r)) page_routes) [
      | none ↦ redirect "/matches"
      | some r ↦ page r.key
    ]

-- The body of a reply: an object with its fields, or another value.
mutual
  pub data Body : Type 0 where
    plain : String → Body
    object : Fields → Body

  pub data Fields : Type 0 where
    end : Fields
    field : String → Body → Fields → Fields

-- A field of an object, if it has one of that name.
unfoldable pub field_of : String → Fields → Option Body
field_of name end = none
field_of name (field k v fs) = if str_eq k name then some v else field_of name fs

abbrev unwrapped : Body → Option Body → Option Body → Body
unwrapped b (some code) (some inner) = inner
unwrapped b _ _ = b

-- The first interceptor: `{ code, data }` is replaced by its `data`.
unfoldable pub unwrap : Body → Body
unfolding field_of
unwrap (plain s) = plain s
unwrap (object fs) = unwrapped (object fs) (field_of "code" fs) (field_of "data" fs)

-- What handlers do to the window.
pub data Act : Type 0 where
  load_page : String → Act
  navigate : String → Act
  error_shown : String → Act

-- The second interceptor: a reply with status 401 loads the login page; the error goes on in any
-- case. A request without a reply has no status.
unfoldable pub on_error : Option ℕ → List Act
on_error none = []
on_error (some status) = if status == 401 then load_page "/login" ∷ [] else []

pub data Outcome : Type 0 where
  success : Outcome
  failure : Option ℕ → Outcome

-- `onFinish` of the login form after its request, with the interceptor's part before it; the
-- Boolean is `loading` at the end.
unfoldable pub login_replied : Outcome → List Act × Bool
unfolding on_error
login_replied success = (navigate "/" ∷ [], false)
login_replied (failure status) = (on_error status ++ error_shown "用户名或密码错误" ∷ [], false)

-- `logout`: a failed request is ignored, past the interceptor.
unfoldable pub logout_replied : Outcome → List Act
unfolding on_error
logout_replied success = navigate "/login" ∷ []
logout_replied (failure status) = on_error status ++ navigate "/login" ∷ []
