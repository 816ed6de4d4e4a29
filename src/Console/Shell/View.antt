-- ===== src/Console/Shell/View.antt =====
-- App.tsx and pages/LoginPage.tsx: what the layout around the pages and the login draw, and what
-- their clicks do.
use mr1v.Base.{Bool, true, false, Option, none, some, List, [], ◌∷◌, map, String}
use mr1v.Console.View.{Item, item}
use mr1v.Console.Shell.{
  PageRoute, page_routes, selected_key, menu_click, Screen, login, page, redirect, screen,
}

-- The menu with the entry that is marked, and what stands beside it.
pub record Layout : Type 0 where
  pub selected : String
  pub items : List (String × String)
  pub content : Screen

abbrev pub menu_items : List (String × String)
menu_items = map (λ (r : PageRoute). (r.key, r.label)) page_routes

abbrev laid_out : String → Screen → Option Layout
laid_out path login = none
laid_out path (page k) =
    some (record { selected = selected_key path; items = menu_items; content = page k })
laid_out path (redirect to) =
    some (record { selected = selected_key path; items = menu_items; content = redirect to })

-- `MainLayout` at a path; the login stands outside it.
unfoldable pub layout : String → Option Layout
unfolding selected_key screen
layout path = laid_out path (screen path)

pub data Click : Type 0 where
  entry_clicked : String → Click
  logout_clicked : Click

-- What a click asks of the window, and whether it asks the backend to log out.
unfoldable pub click : Click → Option String × Bool
unfolding menu_click
click (entry_clicked key) = (menu_click key, false)
click logout_clicked = (none, true)

-- The form of the login; its button spins while a login is awaited.
pub record LoginForm : Type 0 where
  pub items : List Item
  pub submit_label : String
  pub is_busy : Bool

unfoldable pub login_form : Bool → LoginForm
login_form loading = record {
  items = item "username" "用户名" true ∷ item "password" "密码" true ∷ [];
  submit_label = "登 录";
  is_busy = loading;
}
