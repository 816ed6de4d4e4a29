-- ===== src/Console/Maps/View.antt =====
-- pages/MapsPage.tsx: what the page draws, and what its clicks do.
use mr1v.Base.{
  ℕ, ◌≡◌, refl, Bool, true, false, not, Option, none, some, List, [], ◌∷◌, map, String,
  if◌then◌else◌, append-nil, All, All-append, In,
}
use mr1v.Js.Text.{Text, codes}
use mr1v.Console.View.{
  tag, button, confirm, switch, Column, plain, table, table_offers, table_offers-All, row_offers,
  row_cells, item, gather, Drawn, dialog_offers, drawn_offers,
}
use mr1v.Console.Maps.{
  MapItem, category_label, Page, MapValues, Request, get_maps, post_map, patch_map, delete_map,
  fetch_maps, handle_add, handle_toggle, handle_delete, category_text, open_add, cancel_add,
}

pub data Event : Type 0 where
  refresh_clicked add_clicked add_confirmed add_cancelled : Event
  enabled_switched : ℕ → Bool → Event
  delete_confirmed : ℕ → Event

-- A click; `validated` is what the form's `validateFields` resolves to.
unfoldable pub click : Option MapValues → Event → Page → Page × List Request
unfolding fetch_maps handle_add handle_toggle handle_delete open_add cancel_add
click validated refresh_clicked p = fetch_maps p
click validated add_clicked p = (open_add p, [])
click validated add_confirmed p = (p, handle_add validated)
click validated add_cancelled p = (cancel_add p, [])
click validated (enabled_switched id b) p = (p, handle_toggle id b)
click validated (delete_confirmed id) p = (p, handle_delete id)

-- The filters of the first column, as their texts and values.
abbrev pub filters : List (String × String)
filters = map (λ (e : String × String). (e.1, e.0)) category_label

-- What the category of the dialog is set to, and what it can be.
abbrev pub initial_category : String
initial_category = "rifle"

abbrev pub category_options : List (String × String)
category_options = category_label

-- `format` is `dayjs(v).format('YYYY-MM-DD HH:mm:ss')`.
module _ (format : String → Text) where
  abbrev pub columns : List (Column MapItem Event)
  columns =
      record { title = "类型"; cell = λ r. tag "blue" (codes (category_text r.category)) ∷ [] }
      ∷ plain "地图名" (λ r. codes r.map_name)
      ∷ record { title = "启用"; cell = λ r. switch r.enabled (enabled_switched r.id) ∷ [] }
      ∷ plain "创建时间" (λ r. format r.created_at)
      ∷ record { title = "操作"; cell = λ r. confirm "确认删除该地图？" "删除" (delete_confirmed r.id) ∷ [] }
      ∷ []

  unfoldable pub view : Page → Drawn Event
  unfolding table
  view p = record {
    tools = button "添加地图" add_clicked ∷ button "刷新" refresh_clicked ∷ [];
    main = table columns p.maps;
    dialogs =
        record {
          title = codes "添加地图";
          is_open = p.add_open;
          is_busy = false;
          ok_label = "添加";
          on_ok = add_confirmed;
          on_cancel = add_cancelled;
          items = item "category" "武器类型" true ∷ item "map_name" "地图名" true ∷ [];
        }
        ∷ [];
  }

-- The requests that the page can ask for as it stands.
pub data Concerns (p : Page) : Request → Type 0 where
  fetches : Concerns p get_maps
  adds : (v : MapValues) → p.add_open ≡ true → Concerns p (post_map v)
  turns : (r : MapItem) → In r p.maps.rows → Concerns p (patch_map r.id (not r.enabled))
  deletes : (r : MapItem) → In r p.maps.rows → Concerns p (delete_map r.id)

abbrev pub AsksFor : Page → Event → Type 0
AsksFor p e = (validated : Option MapValues) → All (Concerns p) (click validated e p).1

handle_add-Concerns :
    (p : Page) (validated : Option MapValues)
    → p.add_open ≡ true
    → All (Concerns p) (handle_add validated)
unfolding handle_add
handle_add-Concerns p none e = tt
handle_add-Concerns p (some v) e = (adds v e, tt)

module _ (format : String → Text) where
  row-AsksFor :
      (p : Page) (r : MapItem)
      → In r p.maps.rows
      → All (AsksFor p) (row_offers (row_cells (columns format) r))
  unfolding click handle_toggle handle_delete
  row-AsksFor p r i = (λ v. (turns r i, tt), (λ v. (deletes r i, tt), tt))

  dialog-AsksFor :
      (p : Page) (open_now : Bool)
      → p.add_open ≡ open_now
      → All (AsksFor p) (if open_now then add_confirmed ∷ add_cancelled ∷ [] else [])
  unfolding click cancel_add
  dialog-AsksFor p true e = (λ v. handle_add-Concerns p v e, (λ v. tt, tt))
  dialog-AsksFor p false e = tt

  dialogs-AsksFor : (p : Page) → All (AsksFor p) (gather dialog_offers (view format p).dialogs)
  unfolding view
  dialogs-AsksFor p = rw append-nil (dialog-AsksFor p p.add_open refl)

  -- Whatever the user clicks of what the page draws, each request that goes out fetches the pool,
  -- adds a map from the open dialog, deletes a map that is shown, or turns over whether a map that
  -- is shown is in use.
  pub maps_view-AsksFor : (p : Page) → All (AsksFor p) (drawn_offers (view format p))
  unfolding view click fetch_maps open_add
  maps_view-AsksFor p = (
    λ v. tt,
    (
      λ v. (fetches, tt),
      All-append (AsksFor p) (table_offers (table (columns format) p.maps))
          (gather dialog_offers (view format p).dialogs)
          (table_offers-All (columns format) (AsksFor p) p.maps (row-AsksFor p))
          (dialogs-AsksFor p),
    ),
  )
