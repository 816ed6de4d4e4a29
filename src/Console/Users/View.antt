-- ===== src/Console/Users/View.antt =====
-- pages/WxUsersPage.tsx: what the page draws, and what its clicks do.
use mr1v.Base.{
  ◌≡◌, refl, Bool, true, false, not, Option, none, some, List, [], ◌∷◌, String, str_eq,
  if◌then◌else◌, All, All-append, In, inl, inr, Bool-cases, arith,
}
use mr1v.Js.Text.{Text, codes}
use mr1v.Console.View.{
  Piece, words, faint, tag, avatar, button, confirm, switch, Column, plain, table, table_offers,
  table_offers-All, row_offers, row_cells, item, gather, piece_offers, Drawn, dialog_offers,
  drawn_offers, is_some,
}
use mr1v.Console.Users.{
  WxUser, Page, UserValues, Request, get_users, delete_user, patch_status, patch_user, fetch_users,
  handle_delete, handle_toggle_status, open_edit, submit_edit, cancel_edit, is_enabled, status_tag,
}

pub data Event : Type 0 where
  refresh_clicked save_clicked edit_cancelled : Event
  edit_clicked : WxUser → Event
  delete_confirmed : String → Event
  status_switched : WxUser → Bool → Event

abbrev pub or_faint : String → String → List (Piece Event)
or_faint v other = if str_eq v "" then faint (codes other) ∷ [] else words (codes v) ∷ []

abbrev pub status_cell : WxUser → List (Piece Event)
status_cell r =
    tag (status_tag r.status).0 (codes (status_tag r.status).1)
    ∷ switch (is_enabled r.status) (status_switched r)
    ∷ []

abbrev pub action_cell : WxUser → List (Piece Event)
action_cell r =
    button "编辑" (edit_clicked r) ∷ confirm "删除该微信用户？" "删除" (delete_confirmed r.openid) ∷ []

-- A click; `validated` is what the form's `validateFields` resolves to.
unfoldable pub click : Option UserValues → Event → Page → Page × List Request
unfolding fetch_users handle_delete handle_toggle_status open_edit submit_edit cancel_edit
click validated refresh_clicked p = fetch_users p
click validated save_clicked p = (p, submit_edit validated p)
click validated edit_cancelled p = (cancel_edit p, [])
click validated (edit_clicked u) p = ((open_edit u p).0, [])
click validated (delete_confirmed openid) p = (p, handle_delete openid)
click validated (status_switched u b) p = (p, handle_toggle_status u b)

-- `format` is `dayjs(v).format(FMT)`.
module _ (format : String → Text) where
  abbrev pub columns : List (Column WxUser Event)
  columns =
      record {
        title = "头像";
        cell = λ r. avatar (if str_eq r.avatar_url "" then none else some r.avatar_url) ∷ [];
      }
      ∷ record { title = "昵称"; cell = λ r. or_faint r.nickname "未设置" }
      ∷ plain "OpenID" (λ r. codes r.openid)
      ∷ record { title = "SteamID"; cell = λ r. or_faint r.steam_id "未绑定" }
      ∷ record { title = "状态"; cell = status_cell }
      ∷ plain "注册时间" (λ r. format r.created_at)
      ∷ plain "更新时间" (λ r. format r.updated_at)
      ∷ record { title = "操作"; cell = action_cell }
      ∷ []

  unfoldable pub view : Page → Drawn Event
  unfolding table
  view p = record {
    tools = button "刷新" refresh_clicked ∷ [];
    main = table columns p.users;
    dialogs =
        record {
          title = codes "编辑微信用户";
          is_open = is_some p.editing;
          is_busy = false;
          ok_label = "保存";
          on_ok = save_clicked;
          on_cancel = edit_cancelled;
          items =
              item "nickname" "昵称" false
              ∷ item "steam_id" "SteamID" false
              ∷ item "avatar_url" "头像URL" false
              ∷ [];
        }
        ∷ [];
  }

-- The requests that the page can ask for as it stands: about a player whom it shows, and about
-- the one who is being edited.
pub data Concerns (p : Page) : Request → Type 0 where
  fetches : Concerns p get_users
  deletes : (u : WxUser) → In u p.users.rows → Concerns p (delete_user u.openid)
  turns :
      (u : WxUser) (status : String)
      → In u p.users.rows
      → is_enabled status ≡ not (is_enabled u.status)
      → Concerns p (patch_status u.openid status)
  edits : (u : WxUser) (v : UserValues) → p.editing ≡ some u → Concerns p (patch_user u.openid v)

abbrev pub AsksFor : Page → Event → Type 0
AsksFor p e = (validated : Option UserValues) → All (Concerns p) (click validated e p).1

turned :
    (p : Page) (u : WxUser) (b : Bool)
    → In u p.users.rows
    → is_enabled u.status ≡ not b
    → All (Concerns p) (handle_toggle_status u b)
unfolding handle_toggle_status is_enabled
turned p u true i e = (turns u "enabled" i (rw e refl), tt)
turned p u false i e = (turns u "disabled" i (rw e refl), tt)

or_faint-offers : (v other : String) → gather piece_offers (or_faint v other) ≡ []
or_faint-offers v other = elim (Bool-cases (str_eq v "")) [ inl e ↦ rw e refl | inr e ↦ rw e refl ]

submit_edit-Concerns :
    (p : Page) (validated : Option UserValues) (editing : Option WxUser)
    → p.editing ≡ editing
    → All (Concerns p) (submit_edit validated p)
unfolding submit_edit
submit_edit-Concerns p validated none e = rw e tt
submit_edit-Concerns p none (some u) e = rw e tt
submit_edit-Concerns p (some v) (some u) e = rw e (edits u v refl, tt)

module _ (format : String → Text) where
  row-AsksFor :
      (p : Page) (u : WxUser)
      → In u p.users.rows
      → All (AsksFor p) (row_offers (row_cells (columns format) u))
  unfolding click handle_delete is_enabled open_edit
  row-AsksFor p u i =
      rw (or_faint-offers u.nickname "未设置", or_faint-offers u.steam_id "未绑定")
        (
          λ v. turned p u (not (is_enabled u.status)) i (ground arith),
          (λ v. tt, (λ v. (deletes u i, tt), tt)),
        )

  dialog-AsksFor : (p : Page) → All (AsksFor p) (gather dialog_offers (view format p).dialogs)
  unfolding view click cancel_edit
  dialog-AsksFor p = elim (Bool-cases (is_some p.editing)) [
    | inl e ↦ rw e (λ v. submit_edit-Concerns p v p.editing refl, (λ v. tt, tt))
    | inr e ↦ rw e tt
  ]

  -- Whatever the user clicks of what the page draws, each request that goes out fetches the list,
  -- deletes a player who is shown, gives a player who is shown the status that the switch does not
  -- show, or changes the player whose dialog is open.
  pub users_view-AsksFor : (p : Page) → All (AsksFor p) (drawn_offers (view format p))
  unfolding view click fetch_users
  users_view-AsksFor p = (
    λ v. (fetches, tt),
    All-append (AsksFor p) (table_offers (table (columns format) p.users))
        (gather dialog_offers (view format p).dialogs)
        (table_offers-All (columns format) (AsksFor p) p.users (row-AsksFor p)) (dialog-AsksFor p),
  )
