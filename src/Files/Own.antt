-- ===== src/Files/Own.antt =====
-- A user's own files (web/src/components/worker/MyFile.js): the storage over the file manager.
use next_terminal.Base.{ℕ, true, Option, none, some, List, [], ◌∷◌, ◌++◌, if◌then◌else◌}
use next_terminal.Base.Text.{Text, codes}
use next_terminal.Request.Handlers.{code_is}
use next_terminal.Request.Verbs.{Answer, Sent, Promise, resolved, get}
use next_terminal.Settings.Properties.{ℤ, pos, negsuc}
use next_terminal.Files.Manager.{Rights}

pub record OwnStorage : Type 0 where
  pub limit_size : ℤ
  pub used_size : ℕ

-- `failures` are the messages of `message.error`.
pub record MyFile : Type 0 where
  pub storage : Option OwnStorage
  pub failures : List (Option Text)

abbrev settled : Promise OwnStorage → MyFile → MyFile
settled (resolved (some b)) page =
    if code_is b.code 1
    then record page { storage = some b.data' }
    else record page { failures = page.failures ++ b.message ∷ [] }
settled _ page = page

unfoldable pub get_default_storage {ℓ} :
    {P : Type ℓ} → (Sent P → Answer OwnStorage) → Text → MyFile → MyFile
get_default_storage axios token page = settled (get axios token (codes "/account/storage")).1 page

-- The size that is shown as the limit, or none for "无限制".
unfoldable pub limit_shown : OwnStorage → Option ℕ
limit_shown storage = elim (storage.limit_size) [ pos n ↦ some n | negsuc n ↦ none ]

unfoldable pub own_rights : Rights
own_rights = record { upload = true; download = true; delete = true; rename = true; edit = true }
