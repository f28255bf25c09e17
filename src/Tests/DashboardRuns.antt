-- ===== src/Tests/DashboardRuns.antt =====
-- The monitor (web/src/components/dashboard/Monitoring.js) on a server that refuses.
use next_terminal.Base.{◌≡◌, refl, false, some, []}
use next_terminal.Base.Text.{Text, codes}
use next_terminal.Request.Verbs.{Sent, Answer, answered, json, get, on_then_get, on_then, includes}
use next_terminal.Request.Handlers.{handle_result}
use next_terminal.Dashboard.Monitor.{Ps, init_data, get_data, queried_data}
use next_terminal.Dashboard.Drawing.{monitoring}
use next_terminal.Dashboard.Failing.{is_drawn, monitoring-get_data}

abbrev refusing : Sent Text → Answer Ps
refusing sent =
    answered (some json)
      (some (record { code = some 0; message = some (codes "no"); data' = init_data }))

monitoring-get_data_example :
    is_drawn (monitoring (queried_data (get_data refusing (codes "t")) (some init_data))) ≡ false
unfolding get on_then_get on_then handle_result includes init_data
monitoring-get_data_example =
    monitoring-get_data refusing (codes "t") (some init_data)
      (record { code = some 0; message = some (codes "no"); data' = init_data }) [] [] refl refl
