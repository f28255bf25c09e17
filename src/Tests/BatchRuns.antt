-- ===== src/Tests/BatchRuns.antt =====
-- Two assets that wait for a command, and their terminals (web/src/components/devops).
use next_terminal.Base.{◌≡◌, refl, true, false, some, [], ◌∷◌, ◌++◌, map}
use next_terminal.Access.Message.{parse, to_string}
use next_terminal.Base.Text.{decimal, Text, codes}
use next_terminal.Batch.Waiting.{Asset, add_rows}
use next_terminal.Batch.Choice.{IsDistinct, added, start, next, Reach-IsDistinct}
use next_terminal.Batch.Terminals.{Session, Page, handle_remove_term}
use next_terminal.Batch.Single.{Single, fresh_single, run_single, tells, closes}
use next_terminal.Batch.Once.{run_single-sent}
use next_terminal.Batch.Delivery.{execute_all, given_all, shut, execute_all-removed}

abbrev web : Asset
web = record { id = codes "1"; name = codes "web" }

abbrev db : Asset
db = record { id = codes "2"; name = codes "db" }

Reach-IsDistinct_example : IsDistinct (add_rows (web ∷ []) (add_rows (web ∷ db ∷ web ∷ []) []))
Reach-IsDistinct_example =
    Reach-IsDistinct (next (next start (added (web ∷ db ∷ web ∷ []))) (added (web ∷ [])))

abbrev session : Text → Session
session id = record {
  id = id;
  open' = true;
  sent = [];
  outputs = [];
  disposed = false;
  connects = true;
}

abbrev page : Page
page = record {
  sessions = session (codes "1") ∷ session (codes "2") ∷ [];
  assets = web ∷ db ∷ [];
  input_value = [];
}

execute_all-removed_example :
    (page' : Page) × (handle_remove_term (codes "2") page ≡ some page')
    × ((execute_all (codes "ls" ∷ []) page').sessions
        ≡ map (given_all (codes "ls" ∷ [])) (session (codes "1") ∷ [])
          ++ shut (session (codes "2")) ∷ map (given_all (codes "ls" ∷ [])) [])
execute_all-removed_example =
    execute_all-removed (codes "2") (codes "ls" ∷ []) (session (codes "1") ∷ []) []
      (session (codes "2")) page refl refl refl

-- The older terminal with an open socket.
abbrev single : Single
single = record (fresh_single (codes "1") (codes "ls")) { socket = true; open' = true }

run_single-sent_example :
    (run_single (tells (codes "1") ∷ tells (codes "2done") ∷ closes ∷ []) single).sent
    ≡ (codes "2ls" ++ 13 ∷ []) ∷ []
unfolding fresh_single parse to_string decimal
run_single-sent_example =
    run_single-sent (codes "1") (tells (codes "2done") ∷ closes ∷ []) single refl refl refl refl
      refl
