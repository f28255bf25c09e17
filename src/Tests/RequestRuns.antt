-- ===== src/Tests/RequestRuns.antt =====
-- Requests (web/src/common/request.js) and the login form (web/src/components/Login.js) on a server
-- that refuses, one that is out of reach and one that lets in.
use next_terminal.Base.{◌≡◌, ◌≢◌, refl, ◌↔◌, true, false, Option, none, some, [], All}
use next_terminal.Base.Text.{Text, codes}
use next_terminal.Request.Handlers.{Body, Failure}
use next_terminal.Request.Verbs.{Sent, Answer, answered, failed, resolved, pending, post}
use next_terminal.Request.Settling.{IsTold, posted, post-pending_iff}
use next_terminal.Request.Api.{returns}
use next_terminal.Request.Reports.{done_calls, failed_calls, done_calls-Succeeds}
use next_terminal.Request.Login.{
  Account, LoginData, LoginForm, stores_token, handle_submit, handle_submit-blocked_iff,
  handle_submit-token_iff,
}

abbrev broken : Failure
broken = record {
  text = codes "Error: Request failed with status code 500";
  message = codes "Request failed with status code 500";
  response = some (record { status = 500; body = some (some (codes "broken")) });
}

abbrev offline : Failure
offline = record {
  text = codes "Error: Network Error";
  message = codes "Network Error";
  response = none;
}

abbrev refusing {ℓ κ} : {P : Type ℓ} {A : Type κ} → Sent P → Answer A
refusing sent = failed broken

post-pending_iff_example :
    ((post {P = Text} {A = Text} refusing (codes "t") (codes "/jobs") none []).1 ≡ pending) ↔ (
      (f : Failure) × (refusing {A = Text}
          (posted {P = Text} {A = Text} refusing (codes "t") (codes "/jobs") none [])
        ≡ failed f)
      × IsTold f)
post-pending_iff_example = post-pending_iff refusing (codes "t") (codes "/jobs") none []

abbrev manager : Account
manager = record {
  username = codes "manager";
  password = codes "secret";
  remember = false;
  totp = none;
}

abbrev form : LoginForm
form = record { in_login = false; prompt = false; account = none; effects = [] }

handle_submit-blocked_iff_example :
    ((handle_submit manager
        (post refusing (codes "t") (codes "/login") (some manager) []).1
        form).in_login
      ≡ true)
    ↔ ((f : Failure) × (refusing {A = Option LoginData}
            (posted {A = Option LoginData} refusing (codes "t") (codes "/login") (some manager) [])
          ≡ failed f)
        × IsTold f)
handle_submit-blocked_iff_example =
    handle_submit-blocked_iff refusing (codes "t") (codes "/login") manager form

abbrev let_in : Body (Option LoginData)
let_in = record {
  code = some 1;
  message = none;
  data' = some (record { token = codes "token"; info = none });
}

handle_submit-token_iff_example :
    (stores_token (handle_submit manager (resolved (some let_in)) form).effects ≡ true) ↔ (
      (b : Body (Option LoginData)) × (resolved (some let_in) ≡ resolved (some b))
      × (b.code ≡ some 1)
      × (b.data' ≢ none))
handle_submit-token_iff_example = handle_submit-token_iff manager (resolved (some let_in)) form refl

abbrev agreed : Body Text
agreed = record { code = some 1; message = none; data' = [] }

abbrev agreeing : Sent Text → Answer Text
agreeing sent = answered none (some agreed)

abbrev typed : Text → Text
typed t = t

done_calls-Succeeds_example :
    All
      (λ call. call ≡ returns true)
      (done_calls agreeing (codes "t") typed (codes "jobs") (codes "1") (codes "2") (codes "{}"))
    × All (λ call. call ≡ returns false) (failed_calls agreeing (codes "t") (codes "1") (codes "2"))
done_calls-Succeeds_example =
    done_calls-Succeeds agreeing (codes "t") typed (codes "jobs") (codes "1") (codes "2")
      (codes "{}") (record { type = none; body = agreed; answers = λ s. refl; code_is_one = refl })
