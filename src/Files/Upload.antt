-- ===== src/Files/Upload.antt =====
-- Uploading (web/src/components/devops/FileSystem.js): the percentages that are shown, how a request
-- ends, and the count of ends after which the listing is refreshed.
use next_terminal.Base.{
  ℕ, suc, ◌+◌, ◌*◌, ◌/◌, ◌≤◌, ◌<◌, ◌≡◌, ◌≢◌, refl, ap, ◌∙◌, ◌↔◌, Bool, true, false, ◌&&◌, Option,
  none, some, List, [], ◌∷◌, length, min, ltb, leb, ◌==◌, if◌then◌else◌, arith,
}
use native.Mathlib.Nat.{le-div_iff_mul-le, div-mul-le_self, le_trans}

-- `Math.min(Math.floor(loaded * 100 / total), 99)`: `none` is not a number, for 0 / 0.
unfoldable pub percent_of : ℕ → ℕ → Option ℕ
percent_of loaded total =
    if total == 0
    then (if loaded == 0 then none else some 99)
    else some (min (loaded * 100 / total) 99)

pub data Notice : Type 0 where
  -- sent to the server, in percent
  uploading : ℕ → Notice
  -- all is sent; the server passes it on, in percent once it says how far it is
  transferring : Option ℕ → Notice
  uploaded : Notice
  upload_failed : Notice

-- A `progress` event whose length is computable: the percentage shown before, and the notice.
unfoldable pub on_progress : ℕ → ℕ → ℕ → ℕ × Option Notice
on_progress prev loaded total =
    if loaded == total then (prev, some (transferring none)) else elim (percent_of loaded total) [
      | none ↦ (prev, none)
      | some percent ↦ if prev == percent then (prev, none) else (percent, some (uploading percent))
    ]

-- The state and the status of the request, and the last count in the answer so far, if any: the
-- notice, and whether the callback is called.
unfoldable pub on_ready_state_change : ℕ → ℕ → Option ℕ → ℕ → Option Notice × Bool
on_ready_state_change ready_state status sent size =
    if ready_state == 4
    then (if leb 200 status && ltb status 300
        then (some uploaded, true)
        else if leb 400 status && ltb status 500
        then (some upload_failed, false)
        else (none, false))
    else elim sent [
      | none ↦ (none, false)
      | some n ↦ (some (transferring (percent_of n size)), false)
    ]

-- The callbacks of the uploads of one selection of `total` files share a counter; the state is the
-- counter and how often the listing has been refreshed.
unfoldable pub on_upload_end : ℕ → Bool → ℕ × ℕ → ℕ × ℕ
on_upload_end total success (count, refreshes) =
    if success
    then (count + 1, if count + 1 == total then refreshes + 1 else refreshes)
    else (count, refreshes)

-- The ends of the uploads, in the order in which they come.
unfoldable pub upload_ends : ℕ → List Bool → ℕ × ℕ → ℕ × ℕ
upload_ends total [] s = s
upload_ends total (end ∷ ends) s = upload_ends total ends (on_upload_end total end s)

-- A shown percentage never reaches 100.
pub percent_of-lt : (loaded total p : ℕ) → percent_of loaded total ≡ some p → p < 100
unfolding percent_of
percent_of-lt loaded total p h = ground arith

div_mono : (a b n : ℕ) → 0 < n → a ≤ b → a / n ≤ b / n
div_mono a b n h le = (le-div_iff_mul-le h).1 (le_trans (div-mul-le_self a n) le)

-- While an upload advances, the shown percentage never falls.
pub percent_of_mono :
    (loaded more total p q : ℕ)
    → loaded ≤ more
    → percent_of loaded total ≡ some p
    → percent_of more total ≡ some q
    → p ≤ q
unfolding percent_of
percent_of_mono loaded more total p q le hp hq =
    ground (arith, div_mono (loaded * 100) (more * 100) total)

-- An upload request that has ended says nothing exactly when its status is neither from 200 to 299
-- nor from 400 to 499.
pub on_ready_state_change-silent_iff :
    (status size : ℕ) (sent : Option ℕ)
    → ((on_ready_state_change 4 status sent size).0 ≡ none) ↔ (
        ((leb 200 status && ltb status 300) ≡ false) × ((leb 400 status && ltb status 500) ≡ false))
unfolding on_ready_state_change
on_ready_state_change-silent_iff status size sent = ground arith

abbrev pub successes : List Bool → ℕ
successes [] = 0
successes (true ∷ ends) = suc (successes ends)
successes (false ∷ ends) = successes ends

upload_ends_count :
    (total : ℕ) (ends : List Bool) (count refreshes : ℕ)
    → upload_ends total ends (count, refreshes) ≡ (
      count + successes ends,
      refreshes + (if ltb count total && leb total (count + successes ends) then 1 else 0),
    )
unfolding upload_ends on_upload_end
upload_ends_count total [] count refreshes = ground arith
upload_ends_count total (true ∷ ends) count refreshes =
    upload_ends_count total ends (count + 1)
      (if count + 1 == total then refreshes + 1 else refreshes)
    ∙ ground arith
upload_ends_count total (false ∷ ends) count refreshes =
    upload_ends_count total ends count refreshes

successes-le : (ends : List Bool) → successes ends ≤ length ends
successes-le [] = omega arith
successes-le (true ∷ ends) = omega (arith, successes-le ends)
successes-le (false ∷ ends) = omega (arith, successes-le ends)

once :
    (ends : List Bool)
    → ends ≢ []
    → 0 + (if ltb 0 (length ends) && leb (length ends) (0 + successes ends) then 1 else 0)
      ≡ (if successes ends == length ends then 1 else 0)
once [] h = absurd (h refl)
once (true ∷ ends) h = ground (arith, successes-le ends)
once (false ∷ ends) h = ground (arith, successes-le ends)

-- Once all uploads of a selection that is not empty have ended, the listing has been refreshed once
-- if all of them succeeded, and not at all if one failed.
pub upload_ends-refreshes :
    (ends : List Bool)
    → ends ≢ []
    → (upload_ends (length ends) ends (0, 0)).1 ≡ (if successes ends == length ends then 1 else 0)
upload_ends-refreshes ends h =
    ap (λ s. s.1) (upload_ends_count (length ends) ends 0 0) ∙ once ends h
