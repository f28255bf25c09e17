-- ===== src/Tables/Execution.antt =====
-- Running a job from its table (web/src/components/devops/Job.js).
use next_terminal.Base.{
  ℕ, zero, suc, ◌≡◌, refl, Bool, true, false, not, some, List, [], ◌∷◌, ◌++◌, if◌then◌else◌,
  get_elem?, set, arith,
}
use mathlib.Core.List.{append_assoc}
use next_terminal.Base.Text.{Text}
use next_terminal.Request.Verbs.{Answer, Sent}
use next_terminal.Request.Api.{Async, returns, throws, waits}
use next_terminal.Request.Endpoints.{exec_job}
use next_terminal.Tables.Actions.{Jobs, loading, success, behind, exec_start, exec_end, handle_exec}

-- Whether an async function returns.
abbrev pub comes_back {ℓ} : {R : Type ℓ} → Async R → Bool
comes_back (returns r) = true
comes_back (throws e) = false
comes_back waits = false

get_elem?-set {ℓ} :
    {A : Type ℓ} (xs : List A) (i : ℕ) (a b : A)
    → get_elem? xs i ≡ some a
    → get_elem? (set xs i b) i ≡ some b
get_elem?-set [] i a b e = ground (arith, e)
get_elem?-set (x ∷ xs) zero a b e = refl
get_elem?-set (x ∷ xs) (suc i) a b e = get_elem?-set xs i a b e

behind-exec :
    (answer : Async Bool) (id : Text) (i : ℕ) (b : Bool) (jobs : Jobs)
    → get_elem? jobs.exec_loading i ≡ some b
    → (get_elem? (behind answer (exec_end id i) (exec_start id i jobs)).exec_loading i
        ≡ some (not (comes_back answer)))
      × ((behind answer (exec_end id i) (exec_start id i jobs)).notices
          ≡ jobs.notices ++ loading id ∷ (if comes_back answer then success id ∷ [] else []))
unfolding exec_start exec_end
behind-exec (returns r) id i b jobs e = (
  get_elem?-set (set jobs.exec_loading i true) i true false
      (get_elem?-set jobs.exec_loading i b true e),
  append_assoc jobs.notices (loading id ∷ []) (success id ∷ []),
)
behind-exec (throws f) id i b jobs e = (get_elem?-set jobs.exec_loading i b true e, refl)
behind-exec waits id i b jobs e = (get_elem?-set jobs.exec_loading i b true e, refl)

-- The page of the jobs tells the success of a job exactly when the request to run it returns,
-- whatever it returns; otherwise the button of the job stays in progress.
pub handle_exec-told {ℓ κ} :
    {P : Type ℓ} {A : Type κ} (axios : Sent P → Answer A) (token id : Text) (i : ℕ) (b : Bool)
    (jobs : Jobs)
    → get_elem? jobs.exec_loading i ≡ some b
    → (get_elem? (handle_exec axios token id i jobs).exec_loading i
        ≡ some (not (comes_back (exec_job axios token id))))
      × ((handle_exec axios token id i jobs).notices
          ≡ jobs.notices
            ++ loading id ∷ (if comes_back (exec_job axios token id) then success id ∷ [] else []))
unfolding handle_exec
handle_exec-told axios token id i b jobs e = behind-exec (exec_job axios token id) id i b jobs e
