-- ===== src/Shell/Debounce.antt =====
-- Delayed calls (web/src/utils/fun.js): a call replaces one that still waits.
use next_terminal.Base.{◌≡◌, refl, Option, none, some, List, [], ◌∷◌, ◌++◌}

-- The arguments of the call that waits, and those with which the function has run.
pub record Debounced {ℓ} (A : Type ℓ) : Type ℓ where
  pub timer : Option A
  pub ran : List A

abbrev pub fresh {ℓ} : {A : Type ℓ} → Debounced A
fresh = record { timer = none; ran = [] }

unfoldable pub call {ℓ} : {A : Type ℓ} → A → Debounced A → Debounced A
call args state = record state { timer = some args }

-- The delay of the call that waits is over.
unfoldable pub fire {ℓ} : {A : Type ℓ} → Debounced A → Debounced A
fire state = elim (state.timer) [
  | none ↦ state
  | some args ↦ record { timer = none; ran = state.ran ++ args ∷ [] }
]

abbrev pub call_all {ℓ} : {A : Type ℓ} → List A → Debounced A → Debounced A
call_all [] state = state
call_all (a ∷ rest) state = call_all rest (call a state)

-- A burst of calls runs the function once, with the arguments of the last.
pub fire-call_all {ℓ} :
    {A : Type ℓ} (burst : List A) (last : A) (state : Debounced A)
    → fire (call_all (burst ++ last ∷ []) state)
      ≡ record { timer = none; ran = state.ran ++ last ∷ [] }
unfolding fire call
fire-call_all [] last state = refl
fire-call_all (a ∷ rest) last state = fire-call_all rest last (call a state)
