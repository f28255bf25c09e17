-- ===== src/Request/Api.antt =====
-- The calls of the server's interface (web/src/api/api.js, web/src/api/session.js) on top of the
-- verbs. The library qs, which writes the parameters of a query, is a parameter.
use next_terminal.Base.{Bool, Option, none, some, [], ◌∷◌, ◌++◌, if◌then◌else◌}
use next_terminal.Base.Text.{Text, codes}
use next_terminal.Request.Handlers.{Body, Failure, code_is}
use next_terminal.Request.Verbs.{
  Answer, Promise, resolved, rejected, pending, type_error, Sent, get, post, put, delete,
}

-- An async function returns, throws, or waits for ever.
pub data Async {ℓ} (R : Type ℓ) : Type ℓ where
  returns : R → Async R
  throws : Failure → Async R
  waits : Async R

-- `await`, then a use of the result that reads a field of it.
abbrev pub await {ℓ κ} : {A : Type ℓ} {R : Type κ} → Promise A → (Body A → R) → Async R
await (resolved none) use' = throws type_error
await (resolved (some b)) use' = returns (use' b)
await (rejected f) use' = throws f
await pending use' = waits

-- `if (result['code'] !== 1) return default; return result['data']`
abbrev pub data_or {ℓ} : {A : Type ℓ} → A → Body A → A
data_or default b = if code_is b.code 1 then b.data' else default

-- `return result['code'] === 1`
abbrev pub is_done {ℓ} : {A : Type ℓ} → Body A → Bool
is_done b = code_is b.code 1

-- `undefined` for any code but 1
abbrev pub data_if {ℓ} : {A : Type ℓ} → Body A → Option A
data_if b = if code_is b.code 1 then some b.data' else none

abbrev pub slash : Text → Text → Text
slash s t = s ++ (b'/' ∷ t)

module _ {ℓ κ} {P : Type ℓ} {A : Type κ} (axios : Sent P → Answer A) (token group : Text) where
  unfoldable pub get_by_id : Text → Async (Option A)
  get_by_id id = await (get axios token (slash (slash [] group) id)).1 data_if

  unfoldable pub get_all : A → Async A
  get_all empty = await (get axios token (slash [] group)).1 (data_or empty)

  unfoldable pub create : P → Async Bool
  create data' = await (post axios token (slash [] group) (some data') []).1 is_done

  unfoldable pub update_by_id : Text → P → Async Bool
  update_by_id id data' = await (put axios token (slash (slash [] group) id) (some data')).1 is_done

  unfoldable pub delete_by_id : Text → Async Bool
  delete_by_id id = await (delete axios token (slash (slash [] group) id)).1 is_done

module _ {ℓ κ μ} {P : Type ℓ} {A : Type κ} {Q : Type μ} (axios : Sent P → Answer A) (token : Text)
    (stringify : Q → Text) (group : Text) where
  unfoldable pub get_paging : A → Q → Async A
  get_paging empty params =
      await (get axios token (slash (slash [] group) (codes "paging?" ++ stringify params))).1
        (data_or empty)

-- `SessionApi`, where the group is "sessions".
abbrev pub sessions : Text
sessions = codes "/sessions"

module _ {ℓ κ} {P : Type ℓ} {A : Type κ} (axios : Sent P → Answer A) (token : Text) where
  unfoldable pub create_session : A → Text → Text → Async A
  create_session empty assets_id mode =
      await
        (post axios token
          (sessions ++ (codes "?assetId=" ++ (assets_id ++ (codes "&mode=" ++ mode)))) none []).1
        (data_or empty)

  unfoldable pub connect : Text → Async Bool
  connect session_id =
      await (post axios token (slash (slash sessions session_id) (codes "connect")) none []).1
        is_done

  unfoldable pub disconnect : Text → Async Bool
  disconnect session_id =
      await (post axios token (slash (slash sessions session_id) (codes "disconnect")) none []).1
        is_done

  unfoldable pub clear : Async Bool
  clear = await (post axios token (slash sessions (codes "clear")) none []).1 is_done

  unfoldable pub stats : A → Text → Async A
  stats empty session_id =
      await (get axios token (slash (slash sessions session_id) (codes "stats"))).1 (data_or empty)

  unfoldable pub resize : Text → Text → Text → Async Bool
  resize session_id width height =
      await
        (post axios token
          (slash sessions session_id
            ++ (codes "/resize?width=" ++ (width ++ (codes "&height=" ++ height))))
          none []).1
        is_done

module _ {ℓ κ μ} {P : Type ℓ} {A : Type κ} {Q : Type μ} (axios : Sent P → Answer A) (token : Text)
    (stringify : Q → Text) where
  unfoldable pub get_command_paging_by_session_id : A → Text → Q → Async A
  get_command_paging_by_session_id empty session_id params =
      await
        (get axios token
          (slash (slash sessions session_id) (codes "commands/paging?" ++ stringify params))).1
        (data_or empty)
