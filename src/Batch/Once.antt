-- ===== src/Batch/Once.antt =====
-- The older terminal of a batch command (web/src/components/access/BatchCommandTerm.js) sends its command
-- once.
use next_terminal.Base.{
  ℕ, ◌≡◌, refl, ap, Bool, true, false, ◌&&◌, Option, List, [], ◌∷◌, ◌++◌, any, if◌then◌else◌,
  Bool-cases, inl, inr, arith,
}
use next_terminal.Base.Tests.{if_both}
use next_terminal.Base.Text.{Text, has_text}
use next_terminal.Access.Message.{closed, connected, data', to_string, parse}
use next_terminal.Access.Terminal.{Output, clear, write, writeln, red}
use next_terminal.Batch.Single.{
  Single, Notice, connect, type_is, Event, single_on_error, single_on_close, will_unmount,
  single_on_message, single_status_updated, opens, resizes, fails, closes, unmounts, tells, types,
  updates, said_by, execute_once, on_event, run_single,
}

-- The events on which the user or the window sends something.
abbrev pub is_input : Event → Bool
is_input (opens size) = true
is_input (resizes size) = true
is_input (types typed) = true
is_input _ = false

-- The command was tried, and just these messages have been sent.
abbrev HasSent : List Text → Single → Type 0
HasSent sent t = (t.executed_command ≡ true) × (t.sent ≡ sent)

-- A message changes nothing but what is shown and asked for, and one that closes the socket that.
said_by-cases :
    (P : Single → Type 0) (type : Option ℕ) (content : Text) (t : Single)
    → ((os : List Output) (ns : List Notice) → P (record t { outputs = os; notices = ns }))
    → (type_is type closed ≡ true
        → (os : List Output) → P (record t { outputs = os; open' = false }))
    → P (said_by type content t)
said_by-cases P type content t h shut =
    let ending : P (
        if type_is type closed
        then record t { outputs = t.outputs ++ writeln (red content) ∷ []; open' = false }
        else t) =
      elim (Bool-cases (type_is type closed)) [
        | inl e ↦ rw e (shut e (t.outputs ++ writeln (red content) ∷ []))
        | inr e ↦ rw e (h t.outputs t.notices)
      ] in
    if_both P (type_is type connected) _ _
      (h (t.outputs ++ clear ∷ []) (t.notices ++ connect t.session_id ∷ []))
      (if_both P (type_is type data') _ _ (h (t.outputs ++ write content ∷ []) t.notices) ending)

executed_stays : (sent : List Text) (t : Single) → HasSent sent t → HasSent sent (execute_once t)
unfolding execute_once
executed_stays sent t h = rw (h.0) (refl, h.1)

on_event-HasSent :
    (sent : List Text) (e : Event) (t : Single)
    → is_input e ≡ false
    → HasSent sent t
    → HasSent sent (on_event e t)
unfolding on_event single_on_error single_on_close will_unmount single_on_message execute_once
    single_status_updated
on_event-HasSent sent fails t quiet h = h
on_event-HasSent sent closes t quiet h = h
on_event-HasSent sent unmounts t quiet h = if_both (HasSent sent) t.socket _ t h h
on_event-HasSent sent (tells raw) t quiet h =
    let said : HasSent sent (said_by (parse raw).type (parse raw).content t) =
      said_by-cases (HasSent sent) (parse raw).type (parse raw).content t (λ os ns. h)
        (λ e os. h) in
    executed_stays sent _ said
on_event-HasSent sent (updates done said) t quiet h = if_both (HasSent sent) done t _ h h
on_event-HasSent sent e t quiet h = ground (arith, quiet)

run_single-HasSent :
    (sent : List Text) (es : List Event) (t : Single)
    → any is_input es ≡ false
    → HasSent sent t
    → HasSent sent (run_single es t)
unfolding run_single
run_single-HasSent sent [] t quiet h = h
run_single-HasSent sent (e ∷ es) t quiet h =
    run_single-HasSent sent es (on_event e t) (ground (arith, quiet))
      (on_event-HasSent sent e t (ground (arith, quiet)) h)

-- Open, with a command that was not tried.
abbrev IsReady : Text → List Text → Single → Type 0
IsReady command sent t =
    (t.executed_command ≡ false)
    × ((t.socket && t.open' ≡ true) × ((t.command ≡ command) × (t.sent ≡ sent)))

execute_once-HasSent :
    (command : Text) (sent : List Text) (t : Single)
    → has_text command ≡ true
    → IsReady command sent t
    → HasSent (sent ++ to_string data' (command ++ 13 ∷ []) ∷ []) (execute_once t)
unfolding execute_once
execute_once-HasSent command sent t full (fresh, (ready, (same, before))) =
    rw (fresh, same, full, ready)
      (refl, ap (λ m. m ++ to_string data' (command ++ 13 ∷ []) ∷ []) before)

-- For an open socket and a command with text that was not tried yet, the first message of the
-- server that does not close the session sends the command with a carriage return; over all further
-- messages, errors, closings and answers, while nothing is typed or resized, nothing else is sent.
pub run_single-sent :
    (raw : Text) (es : List Event) (t : Single)
    → t.executed_command ≡ false
    → type_is (parse raw).type closed ≡ false
    → t.socket && t.open' ≡ true
    → has_text t.command ≡ true
    → any is_input es ≡ false
    → (run_single (tells raw ∷ es) t).sent ≡ t.sent ++ to_string data' (t.command ++ 13 ∷ []) ∷ []
unfolding run_single on_event single_on_message
run_single-sent raw es t fresh going ready full quiet =
    (run_single-HasSent _ es (on_event (tells raw) t) quiet (
      execute_once-HasSent t.command t.sent _ full (
        said_by-cases (IsReady t.command t.sent) (parse raw).type (parse raw).content t
          (λ os ns. (fresh, (ready, (refl, refl)))) (λ e os. ground (arith, going, e))))).1
