-- ===== src/Console/Images/View.antt =====
-- pages/RehldsConfigPage.tsx: what the page draws, and what its clicks do.
use mr1v.Base.{
  select, In-select, All-In, arith, not, ℕ, ◌≡◌, refl, Bool, true, false, Option, none, some, List,
  [], ◌∷◌, String, if◌then◌else◌, append-nil, All, All-append, In, inl, inr, Bool-cases,
}
use mr1v.Js.Text.{Text, codes}
use mr1v.Js.Parse.{decimal}
use mr1v.Console.View.{
  Piece, tag, bare_tag, button, stuck, confirm, Column, plain, table, table_offers,
  table_offers-All, In-table_offers, In-append_left, row_offers, row_cells, item, gather, Drawn,
  dialog_offers, drawn_offers,
}
use mr1v.Console.Images.{
  RehldsConfig, Page, ConfigValues, Request, get_configs, post_config, activate, fetch_configs,
  handle_add, handle_activate, Action, already_active, can_activate, row_action, open_add,
  cancel_add,
}

pub data Event : Type 0 where
  refresh_clicked add_clicked add_confirmed add_cancelled : Event
  activate_confirmed : ℕ → Event

-- A click; `validated` is what the form's `validateFields` resolves to.
unfoldable pub click : Option ConfigValues → Event → Page → Page × List Request
unfolding fetch_configs handle_add handle_activate open_add cancel_add
click validated refresh_clicked p = fetch_configs p
click validated add_clicked p = (open_add p, [])
click validated add_confirmed p = (p, handle_add validated)
click validated add_cancelled p = (cancel_add p, [])
click validated (activate_confirmed id) p = (p, handle_activate id)

abbrev pub action_piece : Action → Piece Event
action_piece already_active = stuck "已激活"
action_piece (can_activate id) = confirm "确认激活该镜像？" "激活" (activate_confirmed id)

abbrev pub active_tag : Bool → Piece Event
active_tag true = tag "green" (codes "激活")
active_tag false = bare_tag (codes "未激活")

-- `format` is `dayjs(v).format('YYYY-MM-DD HH:mm:ss')`.
module _ (format : String → Text) where
  abbrev pub columns : List (Column RehldsConfig Event)
  columns =
      plain "ID" (λ r. decimal r.id)
      ∷ plain "镜像" (λ r. codes r.image)
      ∷ plain "版本" (λ r. codes r.version)
      ∷ record { title = "当前激活"; cell = λ r. active_tag r.is_active ∷ [] }
      ∷ plain "创建时间" (λ r. format r.created_at)
      ∷ record { title = "操作"; cell = λ r. action_piece (row_action r) ∷ [] }
      ∷ []

  unfoldable pub view : Page → Drawn Event
  unfolding table
  view p = record {
    tools = button "添加镜像" add_clicked ∷ button "刷新" refresh_clicked ∷ [];
    main = table columns p.configs;
    dialogs =
        record {
          title = codes "添加 Rehlds 镜像配置";
          is_open = p.add_open;
          is_busy = false;
          ok_label = "添加";
          on_ok = add_confirmed;
          on_cancel = add_cancelled;
          items = item "image" "镜像地址" true ∷ item "version" "版本标签" false ∷ [];
        }
        ∷ [];
  }

-- An image that is shown and not active.
abbrev pub IsSpare : Page → RehldsConfig → Type 0
IsSpare p r = In r p.configs.rows × (r.is_active ≡ false)

-- The requests that the page can ask for as it stands.
pub data Concerns (p : Page) : Request → Type 0 where
  fetches : Concerns p get_configs
  adds : (v : ConfigValues) → p.add_open ≡ true → Concerns p (post_config v)
  activates : (r : RehldsConfig) → IsSpare p r → Concerns p (activate r.id)

abbrev pub AsksFor : Page → Event → Type 0
AsksFor p e = (validated : Option ConfigValues) → All (Concerns p) (click validated e p).1

handle_add-Concerns :
    (p : Page) (validated : Option ConfigValues)
    → p.add_open ≡ true
    → All (Concerns p) (handle_add validated)
unfolding handle_add
handle_add-Concerns p none e = tt
handle_add-Concerns p (some v) e = (adds v e, tt)

module _ (format : String → Text) where
  row-AsksFor :
      (p : Page) (r : RehldsConfig)
      → In r p.configs.rows
      → All (AsksFor p) (row_offers (row_cells (columns format) r))
  unfolding click handle_activate row_action
  row-AsksFor p r i = elim (Bool-cases r.is_active) [
    | inl e ↦ rw e tt
    | inr e ↦ rw e (λ v. (activates r (i, e), tt), tt)
  ]

  dialog-AsksFor :
      (p : Page) (open_now : Bool)
      → p.add_open ≡ open_now
      → All (AsksFor p) (if open_now then add_confirmed ∷ add_cancelled ∷ [] else [])
  unfolding click cancel_add
  dialog-AsksFor p true e = (λ v. handle_add-Concerns p v e, (λ v. tt, tt))
  dialog-AsksFor p false e = tt

  dialogs-AsksFor : (p : Page) → All (AsksFor p) (gather dialog_offers (view format p).dialogs)
  unfolding view
  dialogs-AsksFor p = rw append-nil (dialog-AsksFor p p.add_open refl)

  row_offered :
      (p : Page) (r : RehldsConfig)
      → IsSpare p r
      → In (activate_confirmed r.id) (row_offers (row_cells (columns format) r))
  unfolding row_action
  row_offered p r (i, e) = rw e (inl refl)

  spare_offered :
      (p : Page) (r : RehldsConfig)
      → In r (select (λ r. not r.is_active) p.configs.rows)
      → In (activate_confirmed r.id) (drawn_offers (view format p))
  unfolding view
  spare_offered p r i =
      let (shown, e) = In-select (λ r. not r.is_active) r p.configs.rows i in
      inr (
        inr (
          In-append_left (activate_confirmed r.id) (table_offers (table (columns format) p.configs))
            (gather dialog_offers (view format p).dialogs)
            (In-table_offers (columns format) (activate_confirmed r.id) p.configs r shown
              (row_offered p r (shown, (ground arith))))))

  -- What the page draws offers to activate each image that is shown and not active. Whatever the
  -- user clicks, each request that goes out activates one of those, fetches the list, or adds an
  -- image from the open dialog.
  pub images_view-AsksFor :
      (p : Page)
      → All (AsksFor p) (drawn_offers (view format p))
        × All
            (λ r. In (activate_confirmed r.id) (drawn_offers (view format p)))
            (select (λ r. not r.is_active) p.configs.rows)
  unfolding view click fetch_configs open_add
  images_view-AsksFor p =
      let shown = table_offers (table (columns format) p.configs) in
      (
        (
          λ v. tt,
          (
            λ v. (fetches, tt),
            All-append (AsksFor p) shown (gather dialog_offers (view format p).dialogs)
                (table_offers-All (columns format) (AsksFor p) p.configs (row-AsksFor p))
                (dialogs-AsksFor p),
          ),
        ),
        All-In (λ r. In (activate_confirmed r.id) (drawn_offers (view format p)))
            (select (λ r. not r.is_active) p.configs.rows) (λ r i. spare_offered p r i),
      )
