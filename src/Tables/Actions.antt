-- ===== src/Tables/Actions.antt =====
-- What the buttons of the tables do (web/src/components/asset/Asset.js, log-audit/LoginLog.js,
-- session/OnlineSession.js and OfflineSession.js, devops/Job.js and user/user/User.js there).
use next_terminal.Base.{ℕ, suc, Bool, true, false, List, [], ◌∷◌, ◌++◌, if◌then◌else◌, set}
use next_terminal.Base.Text.{Text, codes, text_eq, has_text, join}
use next_terminal.Request.Verbs.{Answer, Sent}
use next_terminal.Request.Api.{Async, returns, throws, waits, delete_by_id, clear, disconnect}
use next_terminal.Request.Endpoints.{
  clear_login_logs, change_job_status, exec_job, change_user_status, reset_totp, change_password,
}
use next_terminal.Tables.Paging.{comma}

-- `selectedRowKeys`, and the calls of `actionRef.current.reload()`
pub record Table : Type 0 where
  pub selected : List Text
  pub reloads : ℕ

-- The lines behind an `await` whose value they do not look at.
abbrev pub behind {ℓ κ} : {R : Type ℓ} {S : Type κ} → Async R → (S → S) → S → S
behind (returns r) f s = f s
behind (throws e) f s = s
behind waits f s = s

abbrev reloaded : Table → Table
reloaded table = record table { reloads = suc table.reloads }

abbrev emptied : Table → Table
emptied table = record { selected = []; reloads = suc table.reloads }

pub data Window : Type 0 where
  opens : (url name : Text) → (width height : ℕ) → Window
  odd_data : Window

abbrev in_terminal : Text → Bool
in_terminal mode =
    if text_eq mode (codes "naive")
    then true
    else if text_eq mode (codes "native")
    then true
    else text_eq mode (codes "terminal")

unfoldable pub monitor : (mode id : Text) → Window
monitor mode id =
    if in_terminal mode
    then opens (codes "#/term-monitor?sessionId=" ++ id) id 1024 768
    else if text_eq mode (codes "guacd")
    then opens (codes "#/guacd-monitor?sessionId=" ++ id) id 1024 768
    else odd_data

unfoldable pub playback : (mode id : Text) → Window
playback mode id =
    if in_terminal mode
    then opens (codes "#/term-playback?sessionId=" ++ id) id 1024 520
    else if text_eq mode (codes "guacd")
    then opens (codes "#/guacd-playback?sessionId=" ++ id) id 1024 768
    else odd_data

pub data Notice : Type 0 where
  loading success : Text → Notice
  reset changed no_password : Notice

-- The jobs' page: the buttons that run, and the notices.
pub record Jobs : Type 0 where
  pub exec_loading : List Bool
  pub notices : List Notice
  pub reloads : ℕ

-- The users' page.
pub record Users : Type 0 where
  pub selected : List Text
  pub notices : List Notice
  pub reloads : ℕ

unfoldable pub exec_start : Text → ℕ → Jobs → Jobs
exec_start id i jobs = record jobs {
  notices = jobs.notices ++ loading id ∷ [];
  exec_loading = set jobs.exec_loading i true;
}

unfoldable pub exec_end : Text → ℕ → Jobs → Jobs
exec_end id i jobs = record {
  notices = jobs.notices ++ success id ∷ [];
  exec_loading = set jobs.exec_loading i false;
  reloads = suc jobs.reloads;
}

module _ {ℓ κ} {P : Type ℓ} {A : Type κ} (axios : Sent P → Answer A) (token : Text) where
  -- A row's "delete", and "delete" and "clear" above the table.
  unfoldable pub delete_row : (group id : Text) → Table → Table
  delete_row group id table = behind (delete_by_id axios token group id) reloaded table

  unfoldable pub delete_selected : (group : Text) → Table → Table
  delete_selected group table =
      behind (delete_by_id axios token group (join comma table.selected)) emptied table

  unfoldable pub clear_sessions : Table → Table
  clear_sessions table = behind (clear axios token) emptied table

  unfoldable pub clear_logs : Table → Table
  clear_logs table = behind (clear_login_logs axios token) reloaded table

  unfoldable pub disconnect_row : Text → Table → Table
  disconnect_row id table = behind (disconnect axios token id) reloaded table

  unfoldable pub handle_change_status : Text → Text → Jobs → Jobs
  handle_change_status id status jobs =
      behind (change_job_status axios token id status) (λ j. record j { reloads = suc j.reloads })
        jobs

  unfoldable pub handle_exec : Text → ℕ → Jobs → Jobs
  unfolding exec_start exec_end
  handle_exec id i jobs = behind (exec_job axios token id) (exec_end id i) (exec_start id i jobs)

  unfoldable pub handle_change_user_status : Text → Bool → Users → Users
  handle_change_user_status id checked users =
      behind
        (change_user_status axios token id (if checked then codes "enabled" else codes "disabled"))
        (λ u. record u { reloads = suc u.reloads }) users

  unfoldable pub handle_reset_totp : Users → Users
  handle_reset_totp users =
      behind (reset_totp axios token (join comma users.selected))
        (λ u. record u { notices = u.notices ++ reset ∷ [] }) users

  unfoldable pub handle_change_password : (Text → P) → Text → Users → Users
  handle_change_password form_data password users =
      if has_text password
      then behind (change_password axios token form_data (join comma users.selected) password)
          (λ u. record u { notices = u.notices ++ changed ∷ [] }) users
      else record users { notices = users.notices ++ no_password ∷ [] }
