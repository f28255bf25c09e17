-- ===== src/Assets/Showing.antt =====
-- All that the dialogue of an asset shows (web/src/components/asset/AssetModal.js), and tests of it that
-- do not depend on its state.
use next_terminal.Base.{
  ◌≡◌, refl, Bool, true, false, not, Option, none, some, List, [], ◌∷◌, ◌++◌, All, any, map,
  Bool-cases, inl, inr, ◌⊎◌,
}
use next_terminal.Base.Tests.{if_both}
use next_terminal.Base.Text.{Text, codes}
use next_terminal.Assets.Form.{AssetForm, is}
use next_terminal.Assets.Basic.{
  Choices, account_item, first_items, kubernetes_items, account_items, with_account, last_items,
  basic_items,
}
use next_terminal.Assets.Advanced.{
  Panel, items_of, rdp_panels, ssh_panels, vnc_panels, telnet_panels, kubernetes_panels,
  advanced_panels,
}
use next_terminal.Views.Items.{Item, id_item, names, All-of_every, All-of_none}

-- The items of the dialogue, whichever of its panels are unfolded; `none` where it throws.
abbrev both : List Item → Option (List Item) → Option (List Item)
both advanced none = none
both advanced (some basic) = some (id_item ∷ basic ++ advanced)

abbrev pub shown_items : Choices → AssetForm → Option (List Item)
shown_items choices form = both (items_of (advanced_panels choices form)) (basic_items choices form)

-- The names of the items that the form holds: its id, those of the first tab, and of the other tab those
-- that have been shown, as the tab and its panels are made when they are first opened.
unfoldable pub registered : (basic advanced : List Item) → List Text
registered basic advanced = names (id_item ∷ basic ++ advanced)

-- The account is asked for with options, or not at all.
abbrev pub HasOptions : AssetForm → Type 0
HasOptions form =
    (is form.protocol (codes "kubernetes") ≡ true)
    ⊎ ((options : List Text) × (form.protocol_options ≡ some options))

-- The lists of the items that the two tabs show.
abbrev accounts : Choices → List (List Item)
accounts choices =
    account_items choices (some (codes "credential"))
    ∷ account_items choices (some (codes "custom"))
    ∷ account_items choices (some (codes "private-key"))
    ∷ []
    ∷ []

abbrev panel_lists : Choices → List (List Panel)
panel_lists choices =
    rdp_panels choices true
    ∷ rdp_panels choices false
    ∷ ssh_panels true
    ∷ ssh_panels false
    ∷ vnc_panels
    ∷ telnet_panels
    ∷ kubernetes_panels true
    ∷ kubernetes_panels false
    ∷ []
    ∷ []

at_flag : (P : Bool → Type 0) → P true → P false → (b : Bool) → P b
at_flag P x y true = x
at_flag P x y false = y

account_items-cases :
    (P : List Item → Type 0) (choices : Choices)
    → All P (accounts choices)
    → (account_type : Option Text) → P (account_items choices account_type)
unfolding account_items
account_items-cases P choices (a, (b, (c, (d, _)))) account_type =
    if_both P (is account_type (codes "credential")) _ _ a (
      if_both P (is account_type (codes "custom")) _ _ b
        (if_both P (is account_type (codes "private-key")) _ _ c d))

advanced_panels-cases :
    (P : List Panel → Type 0) (choices : Choices)
    → All P (panel_lists choices)
    → (form : AssetForm) → P (advanced_panels choices form)
unfolding advanced_panels
advanced_panels-cases P choices (r, (r', (s, (s', (v, (t, (k, (k', (e, _))))))))) form =
    if_both P (is form.protocol (codes "rdp")) _ _
      (at_flag (λ b. P (rdp_panels choices b)) r r' form.enable_drive)
      (if_both P (is form.protocol (codes "ssh")) _ _
        (at_flag (λ b. P (ssh_panels b)) s s' form.socks_proxy_enable)
        (if_both P (is form.protocol (codes "vnc")) _ _ v (
          if_both P (is form.protocol (codes "telnet")) _ _ t (
            if_both P (is form.protocol (codes "kubernetes")) _ _
              (at_flag (λ b. P (kubernetes_panels b)) k k' form.use_ssl) e))))

-- All that the dialogue shows, with the items in the middle of its first tab and the panels.
abbrev whole : Choices → List Item → List Panel → List Item
whole choices items panels =
    id_item ∷ (first_items ++ (items ++ last_items choices)) ++ items_of panels

-- What may stand in the middle.
abbrev middles : Choices → List Text → List (List Item)
middles choices options =
    kubernetes_items ∷ map (λ items. account_item options ∷ items) (accounts choices)

-- A test fails for some panels.
abbrev fails : (List Item → Bool) → Choices → List Item → Bool
fails test choices items =
    any (λ panels. not (test (whole choices items panels))) (panel_lists choices)

-- A test that every such dialogue passes.
abbrev pub Passes : (List Item → Bool) → Choices → Type 0
Passes test choices =
    (options : List Text) → any (fails test choices) (middles choices options) ≡ false

module _ (test : List Item → Bool) (choices : Choices) (form : AssetForm) where
  passed :
      (items : List Item)
      → fails test choices items ≡ false
      → test (whole choices items (advanced_panels choices form)) ≡ true
  passed items h =
      advanced_panels-cases (λ panels. test (whole choices items panels) ≡ true) choices
        (All-of_every (λ panels. test (whole choices items panels)) (panel_lists choices) h) form

  account_passed :
      (pass : Passes test choices) (options : List Text)
      → fails test choices (account_item options ∷ account_items choices form.account_type) ≡ false
  account_passed pass options =
      account_items-cases (λ items. fails test choices (account_item options ∷ items) ≡ false)
        choices (All-of_none (fails test choices) (middles choices options) (pass options)).1
        form.account_type

  kubernetes_passed : Passes test choices → fails test choices kubernetes_items ≡ false
  kubernetes_passed pass = (All-of_none (fails test choices) (middles choices []) (pass [])).0

  -- In a state with options the dialogue does not throw, and what it shows passes the test.
  pub shown_items-Passes :
      Passes test choices
      → HasOptions form
      → (items : List Item) × (shown_items choices form ≡ some items) × (test items ≡ true)
  unfolding basic_items with_account
  shown_items-Passes pass (inl k) = (_, rw k refl, passed kubernetes_items (kubernetes_passed pass))
  shown_items-Passes pass (inr (options, e)) =
      elim (Bool-cases (is form.protocol (codes "kubernetes"))) [
        | inl k ↦ (_, rw k refl, passed kubernetes_items (kubernetes_passed pass))
        | inr k ↦ (
          _,
          rw (k, e) refl,
          passed (account_item options ∷ account_items choices form.account_type)
              (account_passed pass options),
        )
      ]
