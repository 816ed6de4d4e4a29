-- ===== src/Console/Agents/Table/Containers.antt =====
-- pages/AgentsPage.tsx: the table of an agent's containers, in its expanded row.
use mr1v.Base.{ℕ, List, [], ◌∷◌, ◌++◌, map, String, ◌==◌, if◌then◌else◌, length}
use mr1v.Js.Text.{Text, codes}
use mr1v.Js.Parse.{decimal}
use mr1v.Console.View.{Piece, faint, code, tag, bare_tag, link, Column, plain}
use mr1v.Console.Agents.Ports.{or_nil}
use mr1v.Console.Agents.Containers.{
  ContainerDetail, Expand, is_open, toggle_env, is_up, name_tags, EnvRow, env_row,
}

-- The link of a container that shows its environment and hides it.
pub data Event : Type 0 where
  env_clicked : String → Event

unfoldable pub click : Event → Expand → Expand
unfolding toggle_env
click (env_clicked id) s = toggle_env id s

abbrev pub env_piece : Expand → ContainerDetail → Piece Event
env_piece s r =
    let count = length (or_nil r.env) in
    if count == 0
    then faint (codes "—")
    else link (if is_open r.id s then codes "收起" else codes "查看(" ++ decimal count ++ codes ")")
        (env_clicked r.id)

-- `format_unix` is `dayjs.unix(v).format('YYYY-MM-DD HH:mm:ss')`.
module _ (format_unix : ℕ → Text) where
  abbrev pub columns : Expand → List (Column ContainerDetail Event)
  columns s =
      plain "CONTAINER ID" (λ r. codes r.id)
      ∷ record { title = "IMAGE"; cell = λ r. code (codes r.image) ∷ [] }
      ∷ record { title = "COMMAND"; cell = λ r. code (codes r.command) ∷ [] }
      ∷ plain "CREATED" (λ r. format_unix r.created)
      ∷ record {
        title = "STATUS";
        cell = λ r. tag (if is_up r.status then "green" else "default") r.status ∷ [];
      }
      ∷ record { title = "NAMES"; cell = λ r. map bare_tag (name_tags r.names) }
      ∷ record { title = "ENV"; cell = λ r. env_piece s r ∷ [] }
      ∷ []

-- The table of a container's environment.
abbrev pub env_columns : List (Column EnvRow Event)
env_columns = plain "变量名" (λ r. r.key) ∷ plain "值" (λ r. r.val) ∷ []

unfoldable pub env_rows : ContainerDetail → List EnvRow
unfolding env_row
env_rows r = map env_row (or_nil r.env)
