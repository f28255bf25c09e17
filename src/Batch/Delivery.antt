-- ===== src/Batch/Delivery.antt =====
-- Which terminals get a command (web/src/components/devops/ExecuteCommand.js).
use next_terminal.Base.{
  ◌≡◌, refl, sym, ap, ◌∙◌, Bool, true, false, some, List, [], ◌∷◌, ◌++◌, map, if◌then◌else◌,
  Bool-cases, inl, inr, any, keep, not, arith,
}
use next_terminal.Base.Text.{Text, text_eq}
use mathlib.Core.List.{append_assoc, append-nil}
use next_terminal.Batch.Terminals.{
  Session, Page, line, given, handle_execute_command, close_first, without_asset,
  handle_remove_term,
}

abbrev pub execute_all : List Text → Page → Page
execute_all [] page = page
execute_all (value ∷ values) page = execute_all values (handle_execute_command value page)

-- What an open session gets of the values.
abbrev pub given_all : List Text → Session → Session
given_all values session =
    if session.open' then record session { sent = session.sent ++ map line values } else session

given_all-cons :
    (value : Text) (values : List Text) (session : Session)
    → given_all values (given value session) ≡ given_all (value ∷ values) session
given_all-cons value values session = elim (Bool-cases session.open') [
  | inl ready ↦ rw ready (
      ap (λ t. record session { open' = true; sent = t })
        (append_assoc session.sent (line value ∷ []) (map line values)))
  | inr shut ↦ rw shut refl
]

given_all-nil : (session : Session) → given_all [] session ≡ session
given_all-nil session = elim (Bool-cases session.open') [
  | inl ready ↦
      rw ready (ap (λ t. record session { open' = true; sent = t }) (append-nil session.sent))
  | inr shut ↦ rw shut refl
]

map-given_all : (sessions : List Session) → map (given_all []) sessions ≡ sessions
map-given_all [] = refl
map-given_all (session ∷ sessions) = simp (given_all-nil, map-given_all sessions)

map-given :
    (value : Text) (values : List Text) (sessions : List Session)
    → map (given_all values) (map (given value) sessions)
      ≡ map (given_all (value ∷ values)) sessions
map-given value values [] = refl
map-given value values (session ∷ sessions) = simp (given_all-cons, map-given value values sessions)

pub execute_all-given :
    (values : List Text) (page : Page)
    → (execute_all values page).sessions ≡ map (given_all values) page.sessions
unfolding handle_execute_command
execute_all-given [] page = sym (map-given_all page.sessions)
execute_all-given (value ∷ values) page =
    execute_all-given values (handle_execute_command value page)
    ∙ map-given value values page.sessions

abbrev pub shut : Session → Session
shut session = record session { open' = false; disposed = true }

abbrev pub is_of : Text → Session → Bool
is_of id session = text_eq session.id id

close_first-append :
    (id : Text) (before after : List Session) (session : Session)
    → any (is_of id) before ≡ false
    → text_eq session.id id ≡ true
    → close_first id (before ++ session ∷ after) ≡ some (before ++ shut session ∷ after)
unfolding close_first
close_first-append id [] after session h e = rw e refl
close_first-append id (b ∷ before) after session h e =
    let other : text_eq b.id id ≡ false = ground arith in
    let none_else : any (is_of id) before ≡ false = ground arith in
    rw (other, close_first-append id before after session none_else e) refl

map-append_one :
    (values : List Text) (before after : List Session) (session : Session)
    → map (given_all values) (before ++ shut session ∷ after)
      ≡ map (given_all values) before ++ shut session ∷ map (given_all values) after
map-append_one values [] after session = refl
map-append_one values (b ∷ before) after session =
    ap (given_all values b ∷◌) (map-append_one values before after session)

-- Removing the terminal of an asset closes its first session, and of any commands that are executed
-- from then on that session gets none; every other session gets all of them, in order, if it is
-- open.
pub execute_all-removed :
    (id : Text) (values : List Text) (before after : List Session) (session : Session) (page : Page)
    → page.sessions ≡ before ++ session ∷ after
    → any (is_of id) before ≡ false
    → text_eq session.id id ≡ true
    → (page' : Page) × (handle_remove_term id page ≡ some page')
      × ((execute_all values page').sessions
          ≡ map (given_all values) before ++ shut session ∷ map (given_all values) after)
unfolding handle_remove_term
execute_all-removed id values before after session page e h same =
    let closed' = before ++ shut session ∷ after in
    let left = record page {
      sessions = closed';
      assets = keep (λ item. not (text_eq item.id id)) page.assets;
    } in
    (
      left,
      ap (λ sessions. without_asset id (close_first id sessions) page) e
          ∙ ap (λ o. without_asset id o page) (close_first-append id before after session h same),
      execute_all-given values left ∙ map-append_one values before after session,
    )
