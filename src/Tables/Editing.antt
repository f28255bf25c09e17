-- ===== src/Tables/Editing.antt =====
-- The dialogues over time: which record they are for when they open, and whose answer closes them.
use next_terminal.Base.{◌≡◌, refl, ◌↔◌, ◌⊎◌, Bool, true, false, none, some, arith}
use next_terminal.Base.Text.{Text}
use next_terminal.Request.Api.{Async, returns, throws, waits}
use next_terminal.Tables.Dialogue.{
  Dialogue, add, edit, cancel, submit, submit_start, submit_end, copy_asset, cancel_asset,
  submit_asset, submit_asset_end,
}

pub submit-confirm_loading_iff :
    (a : Async Bool) (d : Dialogue)
    → (((submit a d).confirm_loading ≡ true) ↔ (a ≡ waits))
      × (((submit_asset a d).confirm_loading ≡ true) ↔ (a ≡ waits))
unfolding submit submit_asset
submit-confirm_loading_iff waits d = ground arith
submit-confirm_loading_iff (throws f) d = ground arith
submit-confirm_loading_iff (returns success) d = ground arith

pub add-submit-edit :
    (id : Text) (d : Dialogue)
    → ((add (submit (returns true) (edit id d))).visible ≡ true)
      × ((add (submit (returns true) (edit id d))).selected_row_key ≡ some id)
      × ((add (submit_asset (returns true) (edit id d))).selected_row_key ≡ none)
unfolding add submit submit_asset edit
add-submit-edit id d = (refl, refl, refl)

-- A turn of the page of the assets: the page is behind the dialogue while that stands, and an answer
-- comes at any time.
pub data Turn (d : Dialogue) (e : Dialogue) : Type 0 where
  added : d.visible ≡ false → e ≡ add d → Turn d e
  edited : (id : Text) → d.visible ≡ false → e ≡ edit id d → Turn d e
  copied : (id : Text) → d.visible ≡ false → e ≡ copy_asset id d → Turn d e
  cancelled : d.visible ≡ true → e ≡ cancel_asset d → Turn d e
  sent : d.visible ≡ true → e ≡ submit_start d → Turn d e
  answered : (a : Async Bool) → d.confirm_loading ≡ true → e ≡ submit_asset_end a d → Turn d e

pub data Reach (d : Dialogue) : Dialogue → Type 0 where
  here : Reach d d
  next : {e f : Dialogue} → Reach d e → Turn e f → Reach d f

-- The dialogue stands, or there is no record that it is for.
abbrev pub IsFresh : Dialogue → Type 0
IsFresh d = (d.visible ≡ true) ⊎ ((d.selected_row_key ≡ none) × (d.copied ≡ false))

Turn-IsFresh : {d e : Dialogue} → Turn d e → IsFresh d → IsFresh e
unfolding add edit copy_asset cancel_asset submit_start submit_asset_end
Turn-IsFresh (added h p) f = ground arith
Turn-IsFresh (edited id h p) f = ground arith
Turn-IsFresh (copied id h p) f = ground arith
Turn-IsFresh (cancelled h p) f = ground arith
Turn-IsFresh (sent h p) f = ground arith
Turn-IsFresh (answered waits h p) f = ground arith
Turn-IsFresh (answered (throws x) h p) f = ground arith
Turn-IsFresh (answered (returns success) h p) f = ground arith

-- Over any turns of the page of the assets, with answers at any time of a request, a dialogue that
-- does not stand has no record and no copy to go on with, if that is so at first.
pub Reach-IsFresh : {d e : Dialogue} → Reach d e → IsFresh d → IsFresh e
Reach-IsFresh here f = f
Reach-IsFresh (next r t) f = Turn-IsFresh t (Reach-IsFresh r f)

pub submit_end-late :
    (id other : Text) (d : Dialogue)
    → ((submit_end (returns true) (edit other (cancel (submit_start (edit id d))))).visible ≡ false)
      × ((submit_end
            (returns true)
            (edit other (cancel (submit_start (edit id d))))).selected_row_key
          ≡ some other)
unfolding submit_end submit_start edit cancel
submit_end-late id other d = (refl, refl)
