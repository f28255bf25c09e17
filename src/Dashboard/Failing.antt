-- ===== src/Dashboard/Failing.antt =====
-- When the monitor cannot be drawn (web/src/components/dashboard/Monitoring.js, web/src/api/monitor.js).
use next_terminal.Base.{
  ◌≡◌, refl, Bool, true, false, Option, none, some, List, ◌∷◌, Bool-cases, inl, inr,
}
use next_terminal.Base.Text.{Text, codes}
use next_terminal.Request.Handlers.{Body, code_is}
use next_terminal.Request.Verbs.{Answer, Sent, resolved, get}
use next_terminal.Dashboard.Monitor.{Ps, get_data, queried_data, scaled_ps}
use next_terminal.Dashboard.Drawing.{Drawing, monitoring}

abbrev pub is_drawn : Option Drawing → Bool
is_drawn none = false
is_drawn (some d) = true

is_drawn-monitoring :
    (ps : Ps) (name : Text) (names : List Text)
    → ps.cpu.info ≡ name ∷ names
    → is_drawn (monitoring (some (scaled_ps ps))) ≡ true
unfolding monitoring scaled_ps
is_drawn-monitoring ps name names e = rw e refl

-- Whatever was drawn before: once the server has answered with a code, and with data that name a
-- processor, the monitor can be drawn exactly if the code is 1; with any other code drawing it
-- throws.
pub monitoring-get_data {ℓ} :
    {P : Type ℓ} (axios : Sent P → Answer Ps) (token : Text) (old : Option Ps) (b : Body Ps)
    (name : Text) (names : List Text)
    → (get axios token (codes "/overview/ps")).1 ≡ resolved (some b)
    → b.data'.cpu.info ≡ name ∷ names
    → is_drawn (monitoring (queried_data (get_data axios token) old)) ≡ code_is b.code 1
unfolding get_data queried_data monitoring
monitoring-get_data axios token old b name names e info = elim (Bool-cases (code_is b.code 1)) [
  | inl one ↦ rw (e, one) (is_drawn-monitoring b.data' name names info)
  | inr other ↦ rw (e, other) refl
]
