-- ===== src/Console/Agents/Page/Warning.antt =====
-- pages/AgentsPage.tsx: the warning of the dialog and what a save does.
use mr1v.Js.Num.{Num}
use mr1v.Js.Text.{Text}
use mr1v.Console.Agents.Page.{Page}
