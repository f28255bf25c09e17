-- ===== src/Request/Verbs.antt =====
-- The five verbs of web/src/common/request.js. The library axios is a parameter: what it answers to
-- a request, which is a response or an error.
use next_terminal.Base.{
  Bool, true, false, ◌&&◌, not, Option, none, some, List, [], ◌∷◌, ◌==◌, if◌then◌else◌,
}
use next_terminal.Base.Text.{Text, codes, text_eq}
use next_terminal.Request.Handlers.{Effect, Body, Failure, handle_error, handle_result}

pub data Method : Type 0 where
  get' post' put' delete' patch' : Method

abbrev pub Headers : Type 0
Headers = List (Text × Text)

pub record Sent {ℓ} (P : Type ℓ) : Type ℓ where
  pub method : Method
  pub url : Text
  pub params : Option P
  pub headers : Headers

-- What axios ends with: a response with its content type and data, or an error.
pub data Answer {ℓ} (A : Type ℓ) : Type ℓ where
  answered : Option Text → Option (Body A) → Answer A
  failed : Failure → Answer A

-- The promise that a verb returns.
pub data Promise {ℓ} (A : Type ℓ) : Type ℓ where
  resolved : Option (Body A) → Promise A
  rejected : Failure → Promise A
  pending : Promise A

-- The `TypeError` of reading a field of null or undefined. Its message is the engine's, and stands
-- here as the empty text.
abbrev pub type_error : Failure
type_error = record { text = codes "TypeError"; message = []; response = none }

-- `catch((error) => …)`
unfoldable pub on_catch {ℓ} : {A : Type ℓ} → Failure → List Effect × Promise A
on_catch error =
    let (effects, result) = handle_error error in
    (
      effects,
      elim result [ none ↦ pending | some go_on ↦ if go_on then rejected error else pending ],
    )

-- `then((response) => …)` where the result is looked at
unfoldable pub on_then {ℓ} : {A : Type ℓ} → Option (Body A) → List Effect × Promise A
unfolding on_catch
on_then d =
    let (effects, result) = handle_result d in
    elim result [ none ↦ on_catch type_error | some _ ↦ (effects, resolved d) ]

-- `contentType.includes('application/json')`
starts : Text → Text → Bool
starts [] s = true
starts (c ∷ p) [] = false
starts (c ∷ p) (d ∷ s) = c == d && starts p s

unfoldable pub includes : Text → Text → Bool
unfolding starts
includes [] p = starts p []
includes (c ∷ s) p = if starts p (c ∷ s) then true else includes s p

abbrev pub json : Text
json = codes "application/json"

-- The same in `get`: only a result of the type JSON is looked at.
unfoldable pub on_then_get {ℓ} :
    {A : Type ℓ} → Option Text → Option (Body A) → List Effect × Promise A
unfolding on_then
on_then_get none d = on_catch type_error
on_then_get (some content_type) d =
    if not (text_eq content_type []) && includes content_type json
    then on_then d
    else ([], resolved d)

-- `headers[k] = v`
set_header : Text → Text → Headers → Headers
set_header k v [] = (k, v) ∷ []
set_header k v ((j, w) ∷ hs) = if text_eq j k then (k, v) ∷ hs else (j, w) ∷ set_header k v hs

unfoldable pub add_headers : Headers → Headers → Headers
unfolding set_header
add_headers headers [] = headers
add_headers headers ((k, v) ∷ header) = add_headers (set_header k v headers) header

abbrev pub get_headers : Text → Headers
get_headers token = (codes "X-Auth-Token", token) ∷ []

-- `axios.get(…).then(…).catch(…)`, and so for the other verbs
abbrev pub settle_get {ℓ} : {A : Type ℓ} → Answer A → List Effect × Promise A
settle_get (answered content_type d) = on_then_get content_type d
settle_get (failed error) = on_catch error

abbrev pub settle {ℓ} : {A : Type ℓ} → Answer A → List Effect × Promise A
settle (answered content_type d) = on_then d
settle (failed error) = on_catch error

module _ {ℓ κ} {P : Type ℓ} {A : Type κ} (axios : Sent P → Answer A) (token : Text) where
  unfoldable pub get : Text → List Effect × Promise A
  get url =
      settle_get
        (axios (record { method = get'; url = url; params = none; headers = get_headers token }))

  -- The other verbs, by what they send.
  abbrev pub send : Sent P → List Effect × Promise A
  send sent = settle (axios sent)

  unfoldable pub post : Text → Option P → Headers → List Effect × Promise A
  post url params header = send (record {
    method = post';
    url = url;
    params = params;
    headers = add_headers (get_headers token) header;
  })

  unfoldable pub put : Text → Option P → List Effect × Promise A
  put url params =
      send (record { method = put'; url = url; params = params; headers = get_headers token })

  unfoldable pub delete : Text → List Effect × Promise A
  delete url =
      send (record { method = delete'; url = url; params = none; headers = get_headers token })

  unfoldable pub patch : Text → Option P → List Effect × Promise A
  patch url params =
      send (record { method = patch'; url = url; params = params; headers = get_headers token })
