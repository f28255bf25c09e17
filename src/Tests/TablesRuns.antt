-- ===== src/Tests/TablesRuns.antt =====
-- The dialogue of the assets and the jobs' table at concrete values.
use next_terminal.Base.{
  ◌≡◌, refl, true, false, not, none, some, [], ◌∷◌, ◌++◌, inr, if◌then◌else◌, get_elem?,
}
use next_terminal.Base.Text.{Text, codes}
use next_terminal.Request.Verbs.{Sent, Answer, answered}
use next_terminal.Request.Api.{returns}
use next_terminal.Request.Endpoints.{exec_job}
use next_terminal.Tables.Dialogue.{closed_dialogue, copy_asset, submit_asset}
use next_terminal.Tables.Editing.{IsFresh, copied, sent, here, next, Reach-IsFresh}
use next_terminal.Tables.Editing
use next_terminal.Tables.Actions.{Jobs, loading, success, handle_exec}
use next_terminal.Tables.Execution.{comes_back, handle_exec-told}
use next_terminal.Base.{All, Option}
use next_terminal.Tables.Paging.{Params, Query, Paging, no_paging}
use next_terminal.Tables.Searches.{Honours, searching, typed-Honours}
use next_terminal.Tables.Lost.{Loses, losing, typed-Loses}

Reach-IsFresh_example :
    IsFresh (submit_asset (returns true) (copy_asset (codes "a1") closed_dialogue))
unfolding submit_asset copy_asset
Reach-IsFresh_example =
    Reach-IsFresh {d = closed_dialogue}
      (next (next (next here (copied (codes "a1") refl refl)) (sent refl refl))
        (Editing.answered (returns true) refl refl))
      (inr (refl, refl))

abbrev refusing : Sent Text → Answer Text
refusing sent' =
    answered none (some (record { code = some 0; message = some (codes "no"); data' = [] }))

abbrev jobs : Jobs
jobs = record { exec_loading = false ∷ []; notices = []; reloads = 0 }

handle_exec-told_example :
    (get_elem? (handle_exec refusing (codes "t") (codes "j") 0 jobs).exec_loading 0
      ≡ some (not (comes_back (exec_job refusing (codes "t") (codes "j")))))
    × ((handle_exec refusing (codes "t") (codes "j") 0 jobs).notices
        ≡ []
          ++ loading (codes "j")
            ∷ (if comes_back (exec_job refusing (codes "t") (codes "j"))
                then success (codes "j") ∷ []
                else []))
handle_exec-told_example = handle_exec-told refusing (codes "t") (codes "j") 0 false jobs refl

abbrev empty : Sent Text → Answer (Paging Text)
empty sent' = answered none (some (record { code = some 1; message = none; data' = no_paging }))

abbrev written : Query → Text
written query = codes "q"

abbrev ten : Text → Option Text
ten name = some (codes "10.0.0.1")

abbrev params : Params
params = record { current = 1; page_size = 10; search = ten; tags = none }

typed-Honours_example :
    All
      (λ page. Honours empty (codes "t") written ten params page)
      (searching empty (codes "t") written [])
typed-Honours_example = typed-Honours empty (codes "t") written ten params []

typed-Loses_example :
    All
      (λ page. Loses page.kept page.columns page.request ten params)
      (losing empty (codes "t") written [] (codes "p1") (codes "userId") [] [] [])
typed-Loses_example =
    typed-Loses empty (codes "t") written ten params [] (codes "p1") (codes "userId") [] [] []
