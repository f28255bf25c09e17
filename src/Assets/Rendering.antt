-- ===== src/Assets/Rendering.antt =====
-- What the form of an asset shows (web/src/components/asset/AssetModal.js) in the states that it
-- reaches.
use next_terminal.Base.{
  suc, ◌≡◌, refl, sym, ◌∙◌, Bool, true, not, ◌||◌, Option, none, some, List, [], ◌∷◌, All, any,
  Bool-cases, inl, inr, ◌⊎◌, if◌then◌else◌, arith,
}
use mathlib.Core.Path.{subst}
use next_terminal.Base.Text.{Text, codes, text_eq, text_eq_iff}
use next_terminal.Assets.Fields.{Fields, value_of, text_of}
use next_terminal.Assets.Form.{
  AssetForm, protocol_mapping, mount, loaded, set_item, get_item, handle_account_type_change,
  handle_protocol_change, hide, is_drawn, options_for, has_options, is_flag, is, set_states,
  then_render,
}
use next_terminal.Assets.Basic.{Choices, first_items, kubernetes_items, account_items, last_items}
use next_terminal.Assets.Advanced.{
  drive_items, rdp_panels, ssh_panels, vnc_panels, telnet_panels, kubernetes_panels,
  change_enable_drive, change_socks_proxy_enable, change_use_ssl,
}
use next_terminal.Views.Items.{Item, names, distinct}
use next_terminal.Assets.Showing.{shown_items, HasOptions, Passes, shown_items-Passes}

-- The protocols that the first tab offers.
abbrev protocols : List Text
protocols = codes "rdp" ∷ codes "ssh" ∷ codes "vnc" ∷ codes "telnet" ∷ codes "kubernetes" ∷ []

abbrev pub is_protocol : Text → Bool
is_protocol p = any (text_eq p) protocols

-- What the user and the server do to the form, where no rendering throws.
pub data Reach : AssetForm → Type 0 where
  mounted : Reach mount
  opened :
      (asset : Fields) (p : Text) {form form' : AssetForm}
      → text_of (value_of (codes "protocol") (loaded asset)) ≡ some p
      → is_protocol p ≡ true
      → get_item (some asset) form ≡ some form'
      → Reach form
      → Reach form'
  protocol_changed :
      (p : Text) {form : AssetForm}
      → is_protocol p ≡ true
      → Reach form
      → Reach (handle_protocol_change p form)
  account_type_changed :
      (v : Text) {form : AssetForm} → Reach form → Reach (handle_account_type_change v form)
  drive_changed : (b : Bool) {form : AssetForm} → Reach form → Reach (change_enable_drive b form)
  proxy_changed :
      (b : Bool) {form : AssetForm} → Reach form → Reach (change_socks_proxy_enable b form)
  ssl_changed : (b : Bool) {form : AssetForm} → Reach form → Reach (change_use_ssl b form)
  hidden_again : {form : AssetForm} → Reach form → Reach (hide form)

-- What holds of each text in a list holds of any text that is one of them.
pub All-any :
    (P : Text → Type 0) (t : Text) (ts : List Text) → any (text_eq t) ts ≡ true → All P ts → P t
All-any P t [] h all = ground (arith, h)
All-any P t (u ∷ ts) h all = elim (Bool-cases (text_eq t u)) [
  | inl same ↦ rw ((text_eq_iff t u).0 same) (all.0)
  | inr other ↦ All-any P t ts (ground (arith, h, other)) all.1
]

pub protocol_mapping-HasOptions :
    (p : Text)
    → is_protocol p ≡ true
    → (text_eq p (codes "kubernetes") ≡ true)
      ⊎ ((options : List Text) × (protocol_mapping p ≡ some options))
unfolding protocol_mapping
protocol_mapping-HasOptions p h =
    All-any
      (λ p.
        (text_eq p (codes "kubernetes") ≡ true)
        ⊎ ((options : List Text) × (protocol_mapping p ≡ some options)))
      p protocols h
      (inr (_, refl), (inr (_, refl), (inr (_, refl), (inr (_, refl), (inl refl, tt)))))

-- What holds of a state holds of the one there is, if any.
abbrev IfSome : (AssetForm → Type 0) → Option AssetForm → Type 0
IfSome P none = Unit
IfSome P (some form) = P form

HasOptions-is_drawn : (form : AssetForm) → HasOptions form → is_drawn form ≡ true
unfolding is_drawn
HasOptions-is_drawn form (inl k) = rw k refl
HasOptions-is_drawn form (inr (options, e)) = rw e (ground arith)

-- A record's protocol can be gone over to: the form shows no account, or the new one has one.
abbrev pub goes_over : (p : Text) → AssetForm → Bool
goes_over p form = is form.protocol (codes "kubernetes") || not (text_eq p (codes "kubernetes"))

-- The state once a record was taken over.
abbrev pub taken :
    (account_type protocol : Option Text) (ssl drive proxy : Bool) → Fields → AssetForm → AssetForm
taken account_type protocol ssl drive proxy asset form = record form {
  account_type = account_type;
  protocol = protocol;
  protocol_options = options_for protocol;
  use_ssl = ssl;
  enable_drive = drive;
  socks_proxy_enable = proxy;
  requests = if is account_type (codes "credential") then suc form.requests else form.requests;
  fields = asset;
}

abbrev pub taken_over : Fields → Text → AssetForm → AssetForm
taken_over asset p form =
    taken (text_of (value_of (codes "accountType") asset)) (some p)
      (is_flag (value_of (codes "use-ssl") asset)) (is_flag (value_of (codes "enable-drive") asset))
      (is_flag (value_of (codes "socks-proxy-enable") asset)) asset form

abbrev GoesOver :
    (account_type : Option Text) (p : Text) (ssl drive proxy : Bool) → Fields → AssetForm → Type 0
GoesOver account_type p ssl drive proxy asset form =
    set_states account_type (some p) ssl drive proxy asset form ≡ (
      if goes_over p form
      then some (taken account_type (some p) ssl drive proxy asset form)
      else none)

set_states-GoesOver :
    (account_type : Option Text) (p : Text) (ssl drive proxy : Bool) (asset : Fields)
    (form : AssetForm)
    → is_drawn form ≡ true
    → is_protocol p ≡ true
    → GoesOver account_type p ssl drive proxy asset form
unfolding set_states then_render is_drawn protocol_mapping
set_states-GoesOver account_type p ssl drive proxy asset form drawn h =
    elim (Bool-cases (is form.protocol (codes "kubernetes"))) [
      | inl k ↦
          All-any (λ p. GoesOver account_type p ssl drive proxy asset form) p protocols h
            (
              rw (k, k) refl,
              (rw (k, k) refl, (rw (k, k) refl, (rw (k, k) refl, (rw (k, k) refl, tt)))),
            )
      | inr k ↦
          let o : has_options form.protocol_options ≡ true = ground (arith, drawn, k) in
          All-any (λ p. GoesOver account_type p ssl drive proxy asset form) p protocols h
            (
              rw (k, o, k) refl,
              (
                rw (k, o, k) refl,
                (rw (k, o, k) refl, (rw (k, o, k) refl, (rw (k, o, k) refl, tt))),
              ),
            )
    ]

-- A record of one of the five protocols is taken over or the rendering throws.
pub get_item-goes_over :
    (asset : Fields) (p : Text) (form : AssetForm)
    → text_of (value_of (codes "protocol") (loaded asset)) ≡ some p
    → is_protocol p ≡ true
    → HasOptions form
    → get_item (some asset) form
      ≡ (if goes_over p form then some (taken_over (loaded asset) p form) else none)
unfolding get_item set_item
get_item-goes_over asset p form e h r =
    rw e (set_states-GoesOver _ p _ _ _ (loaded asset) form (HasOptions-is_drawn form r) h)

-- What holds of a form that took a record over holds of any that `getItem` reaches.
pub get_item-reaches :
    (P : AssetForm → Type 0) (asset : Fields) (p : Text) (form form' : AssetForm)
    → text_of (value_of (codes "protocol") (loaded asset)) ≡ some p
    → is_protocol p ≡ true
    → HasOptions form
    → get_item (some asset) form ≡ some form'
    → P (taken_over (loaded asset) p form)
    → P form'
get_item-reaches P asset p form form' e h r same x =
    let reached : IfSome P
        (if goes_over p form then some (taken_over (loaded asset) p form) else none) =
      elim (Bool-cases (goes_over p form)) [ inl g ↦ rw g x | inr g ↦ rw g tt ] in
    subst (IfSome P) (sym (get_item-goes_over asset p form e h r) ∙ same) reached

Reach-HasOptions : {form : AssetForm} → Reach form → HasOptions form
unfolding mount protocol_mapping handle_account_type_change handle_protocol_change hide
    change_enable_drive change_socks_proxy_enable change_use_ssl
Reach-HasOptions mounted = inr (_, refl)
Reach-HasOptions (opened asset p {form} {form'} e h same r) =
    get_item-reaches HasOptions asset p form form' e h (Reach-HasOptions r) same
      (protocol_mapping-HasOptions p h)
Reach-HasOptions (protocol_changed p {form} h r) =
    All-any (λ p. HasOptions (handle_protocol_change p form)) p protocols h
      (inr (_, refl), (inr (_, refl), (inr (_, refl), (inr (_, refl), (inl refl, tt)))))
Reach-HasOptions (account_type_changed v r) = Reach-HasOptions r
Reach-HasOptions (drive_changed b r) = Reach-HasOptions r
Reach-HasOptions (proxy_changed b r) = Reach-HasOptions r
Reach-HasOptions (ssl_changed b r) = Reach-HasOptions r
Reach-HasOptions (hidden_again r) = Reach-HasOptions r

distinct-Passes : (choices : Choices) → Passes (λ items. distinct (names items)) choices
unfolding first_items kubernetes_items account_items last_items drive_items rdp_panels ssh_panels
    vnc_panels telnet_panels kubernetes_panels
distinct-Passes choices options = refl

-- In every state that the form of an asset reaches from its first one without a rendering that
-- throws, by records of one of the five protocols that the server sends, changes of the protocol to
-- one of the five, of the kind of account and of the switches, and closings, the dialogue can be
-- drawn, and no two of its items have one name.
pub Reach-shown_items :
    {form : AssetForm} (choices : Choices)
    → Reach form
    → (items : List Item) × (shown_items choices form ≡ some items)
      × (distinct (names items) ≡ true)
Reach-shown_items {form} choices r =
    shown_items-Passes (λ items. distinct (names items)) choices form (distinct-Passes choices)
      (Reach-HasOptions r)
