-- ===== src/Request/Settling.antt =====
-- When a request's promise is resolved, rejected or left pending, and what is shown meanwhile.
use next_terminal.Base.{
  ℕ, ◌≡◌, ◌≢◌, refl, ap, ◌↔◌, ◌⊎◌, inl, inr, Bool, true, false, Option, none, some, List, [], ◌∷◌,
  ◌++◌, ◌==◌, any, arith, Bool-cases,
}
use mathlib.Core.Path.{subst}
use next_terminal.Base.Text.{Text, text_eq, text_eq_iff}
use next_terminal.Request.Handlers.{
  Effect, toast, visit, Body, ErrorResponse, Failure, login_url, network_error, handle_error,
  handle_result,
}
use next_terminal.Request.Verbs.{
  Answer, answered, failed, rejected, pending, on_catch, on_then, Sent, get_headers, post, post',
  settle, Headers, add_headers,
}

-- The error has been told to the user: a network error by its text, or one with a response.
abbrev pub IsTold : Failure → Type 0
IsTold f = (f.text ≡ network_error) ⊎ (f.response ≢ none)

-- What the server demands a login for.
abbrev pub DemandsLogin {ℓ} : {A : Type ℓ} → Answer A → Type 0
DemandsLogin (answered _ none) = ⊥
DemandsLogin (answered _ (some b)) = b.code ≡ some 401
DemandsLogin (failed f) =
    (f.text ≢ network_error) × ((r : ErrorResponse) × (f.response ≡ some r) × (r.status ≡ 401))

abbrev is_login : Effect → Bool
is_login (toast _) = false
is_login (visit url) = text_eq url login_url

abbrev pub goes_to_login : List Effect → Bool
goes_to_login = any is_login

module _ {ℓ} (A : Type ℓ) where
  on_catch-pending_iff : (f : Failure) → ((on_catch {A = A} f).1 ≡ pending) ↔ IsTold f
  unfolding on_catch handle_error
  on_catch-pending_iff f = ground (arith, text_eq_iff network_error f.text)

  catch_login_without :
      (text message : Text)
      → goes_to_login
          (on_catch {A = A} (record { text = text; message = message; response = none })).0
        ≡ false
  unfolding on_catch handle_error
  catch_login_without text message = ground arith

  catch_login_to :
      (text message : Text) (r : ErrorResponse)
      → goes_to_login
          (on_catch {A = A} (record { text = text; message = message; response = some r })).0
        ≡ true
      → (text ≢ network_error) × (r.status ≡ 401)
  unfolding on_catch handle_error
  catch_login_to text message r h = ground (arith, text_eq_iff network_error text)

  catch_login_from :
      (text message : Text) (r : ErrorResponse)
      → text ≢ network_error
      → r.status ≡ 401
      → goes_to_login
          (on_catch {A = A} (record { text = text; message = message; response = some r })).0
        ≡ true
  unfolding on_catch handle_error
  catch_login_from text message r n e = ground (arith, text_eq_iff network_error text)

  catch_login :
      (text message : Text) (o : Option ErrorResponse)
      → (goes_to_login
            (on_catch {A = A} (record { text = text; message = message; response = o })).0
          ≡ true)
        ↔ DemandsLogin {A = A} (failed (record { text = text; message = message; response = o }))
  catch_login text message none = (λ h. cc (catch_login_without text message), λ (n, x). cc (x.1))
  catch_login text message (some r) = (
    λ h. let (n, e) = catch_login_to text message r h in (n, (r, refl, e)),
    λ (n, x).
        catch_login_from text message r n
          (let p : x.0 ≡ r = cc (x.1) in subst (λ q. q.status ≡ 401) p x.2),
  )

  on_catch-login :
      (f : Failure)
      → (goes_to_login (on_catch {A = A} f).0 ≡ true) ↔ DemandsLogin {A = A} (failed f)
  on_catch-login f = catch_login f.text f.message f.response

  on_then-ne-pending : (d : Option (Body A)) → (on_then d).1 ≢ pending
  unfolding on_then handle_result handle_error
  on_then-ne-pending none = cc
  on_then-ne-pending (some b) = ground arith

  on_then-login :
      (ct : Option Text) (d : Option (Body A))
      → (goes_to_login (on_then d).0 ≡ true) ↔ DemandsLogin (answered ct d)
  unfolding on_then handle_result handle_error
  on_then-login ct none = ground arith
  on_then-login ct (some b) = ground arith

  settle-pending_iff :
      (a : Answer A) → ((settle a).1 ≡ pending) ↔ ((f : Failure) × (a ≡ failed f) × IsTold f)
  settle-pending_iff (answered ct d) = (λ e. absurd (on_then-ne-pending d e), λ x. cc)
  settle-pending_iff (failed f) = (
    λ e. (f, refl, (on_catch-pending_iff f).0 e),
    λ x. (on_catch-pending_iff f).1 (let e : x.0 ≡ f = cc in subst IsTold e x.2),
  )

  settle-login : (a : Answer A) → (goes_to_login (settle a).0 ≡ true) ↔ DemandsLogin a
  settle-login (answered ct d) = on_then-login ct d
  settle-login (failed f) = on_catch-login f

module _ {ℓ κ} {P : Type ℓ} {A : Type κ} (axios : Sent P → Answer A) (token : Text) where
  abbrev pub posted : Text → Option P → Headers → Sent P
  posted url params header = record {
    method = post';
    url = url;
    params = params;
    headers = add_headers (get_headers token) header;
  }

  -- The promise of a post stays pending for ever exactly when axios fails with an error that is
  -- told to the user: a network error by its text, or one with a response, whatever its status.
  pub post-pending_iff :
      (url : Text) (params : Option P) (header : Headers)
      → ((post axios token url params header).1 ≡ pending)
        ↔ ((f : Failure) × (axios (posted url params header) ≡ failed f) × IsTold f)
  unfolding post
  post-pending_iff url params header = settle-pending_iff A (axios (posted url params header))

  -- A post sends the user to the login page exactly when the answer carries the code 401, or axios
  -- fails with the status 401 and the failure is no network error by its text.
  pub post-login_iff :
      (url : Text) (params : Option P) (header : Headers)
      → (goes_to_login (post axios token url params header).0 ≡ true)
        ↔ DemandsLogin (axios (posted url params header))
  unfolding post
  post-login_iff url params header = settle-login A (axios (posted url params header))

any-append {ℓ} :
    {T : Type ℓ} (p : T → Bool) (xs ys : List T) → any p ys ≡ true → any p (xs ++ ys) ≡ true
any-append p [] ys h = h
any-append p (x ∷ xs) ys h = ground (arith, any-append p xs ys h)

abbrev is_colon : ℕ → Bool
is_colon c = c == b':'

-- An error that has no response, and whose text is a name, a colon, a blank and a message, is
-- rejected with nothing shown, a network error too.
pub on_catch-named {ℓ} :
    {A : Type ℓ} (f : Failure) (name said : Text)
    → f.text ≡ name ++ (b':' ∷ b' ' ∷ said)
    → f.response ≡ none
    → on_catch {A = A} f ≡ ([], rejected f)
unfolding on_catch handle_error
on_catch-named f name said e r = elim (Bool-cases (text_eq network_error f.text)) [
  | inl same ↦
      let colon : any is_colon f.text ≡ true =
        rw e (any-append is_colon name (b':' ∷ b' ' ∷ said) refl) in
      cc (ap (any is_colon) ((text_eq_iff network_error f.text).0 same), colon)
  | inr other ↦ simp (other, r)
]
