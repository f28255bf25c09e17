-- ===== src/Accounts/Factor.antt =====
-- The second factor (web/src/components/Totp.js) and the access token (web/src/components/AccessToken.js).
use next_terminal.Base.{ℕ, suc, Bool, if◌then◌else◌}
use next_terminal.Base.Text.{Text}
use next_terminal.Request.Verbs.{Answer, Sent}
use next_terminal.Request.Api.{Async, returns, throws, waits}
use next_terminal.Request.Endpoints.{
  reload_totp, confirm_totp, reset_own_totp, create_access_token, delete_access_token,
}

-- `refetches` counts the calls of `infoQuery.refetch()`, `told` the notices of a success.
pub record Totp {ℓ} (A : Type ℓ) : Type ℓ where
  pub totp : A
  pub refetches : ℕ
  pub told : ℕ

abbrev after_success {ℓ} : {S : Type ℓ} → Async Bool → (S → S) → S → S
after_success (returns success) f s = if success then f s else s
after_success (throws e) f s = s
after_success waits f s = s

module _ {ℓ κ} {P : Type ℓ} {A : Type κ} (axios : Sent P → Answer A) (token : Text) where
  unfoldable pub reset_totp : A → Totp A → Totp A
  reset_totp empty state = elim (reload_totp axios token empty) [
    | returns totp ↦ record state { totp = totp }
    | throws f ↦ state
    | waits ↦ state
  ]

  -- `with_secret` sets `values['secret']`; the state is emptied where the query comes back.
  unfoldable pub confirm : (with_secret : A → P → P) → A → P → Totp A → Totp A
  confirm with_secret empty values state =
      after_success (confirm_totp axios token (with_secret state.totp values))
        (λ s. record { totp = empty; refetches = suc s.refetches; told = suc s.told }) state

  unfoldable pub unbind : Totp A → Totp A
  unbind state =
      after_success (reset_own_totp axios token)
        (λ s. record s { refetches = suc s.refetches; told = suc s.told }) state

  unfoldable pub gen_access_token : A → ℕ → ℕ
  gen_access_token empty refetches = elim (create_access_token axios token empty) [
    | returns made ↦ suc refetches
    | throws f ↦ refetches
    | waits ↦ refetches
  ]

  unfoldable pub clear_access_token : ℕ → ℕ
  clear_access_token refetches =
      after_success (delete_access_token axios token) (λ n. suc n) refetches
