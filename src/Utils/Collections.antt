-- ===== src/Utils/Collections.antt =====
-- `groupBy` and `difference` (web/src/utils/utils.js), over texts as elements of a set.
use next_terminal.Base.{
  ◌≡◌, refl, sym, ap, ◌∙◌, Bool, true, false, not, ◌&&◌, ◌||◌, List, [], ◌∷◌, ◌++◌, keep, any,
  if◌then◌else◌, Bool-cases, inl, inr, arith,
}
use mathlib.Core.Bool.{xor}
use mathlib.Core.List.{append_assoc, append-nil}
use next_terminal.Base.Text.{Text, text_eq, text_eq_iff}

-- `set.has(v)`
abbrev pub has : List Text → Text → Bool
has xs v = any (text_eq v) xs

-- `Array.from(new Set(xs))`: every element where it first stands.
unfoldable pub unique_from : List Text → List Text → List Text
unique_from seen [] = []
unique_from seen (x ∷ xs) =
    if has seen x then unique_from seen xs else x ∷ unique_from (x ∷ seen) xs

unfoldable pub difference : List Text → List Text → List Text
unfolding unique_from
difference a b = unique_from [] (keep (λ v. not (has a v) || not (has b v)) (a ++ b))

same-at : (f : Text → Bool) (v x : Text) → text_eq v x ≡ true → f v ≡ f x
same-at f v x h = ap f ((text_eq_iff v x).0 h)

has-unique_from :
    (seen xs : List Text) (v : Text) → has (unique_from seen xs) v ≡ (has xs v && not (has seen v))
unfolding unique_from
has-unique_from seen [] v = ground arith
has-unique_from seen (x ∷ xs) v =
    ground
      (arith, has-unique_from seen xs v, has-unique_from (x ∷ seen) xs v, same-at (has seen) v x)

has-keep : (p : Text → Bool) (xs : List Text) (v : Text) → has (keep p xs) v ≡ (has xs v && p v)
has-keep p [] v = refl
has-keep p (x ∷ xs) v = ground (arith, has-keep p xs v, same-at p v x)

has-append : (xs ys : List Text) (v : Text) → has (xs ++ ys) v ≡ (has xs v || has ys v)
has-append [] ys v = refl
has-append (x ∷ xs) ys v = ground (arith, has-append xs ys v)

one_of : (p q : Bool) → (((p || q) && (not p || not q)) && true) ≡ xor p q
unfolding xor
one_of true true = refl
one_of true false = refl
one_of false true = refl
one_of false false = refl

-- A value is in the difference of two lists exactly when it is in one of them and not in the other.
pub has-difference : (a b : List Text) (v : Text) → has (difference a b) v ≡ xor (has a v) (has b v)
unfolding difference
has-difference a b v =
    has-unique_from [] (keep (λ v. not (has a v) || not (has b v)) (a ++ b)) v
    ∙ ap (λ t. t && true)
        (has-keep (λ v. not (has a v) || not (has b v)) (a ++ b) v
          ∙ ap (λ t. t && (not (has a v) || not (has b v))) (has-append a b v))
    ∙ one_of (has a v) (has b v)

-- The groups of a list in the order in which their keys first come.
abbrev pub Groups {ℓ} : Type ℓ → Type ℓ
Groups A = List (Text × List A)

module _ {ℓ} {A : Type ℓ} where
  -- `groups[key] = groups[key] || []; groups[key].push(x)`
  unfoldable pub push : Text → A → Groups A → Groups A
  push key x [] = (key, x ∷ []) ∷ []
  push key x ((k, xs) ∷ groups) =
      if text_eq k key then (k, xs ++ x ∷ []) ∷ groups else (k, xs) ∷ push key x groups

  unfoldable pub group_from : (A → Text) → List A → Groups A → Groups A
  unfolding push
  group_from fn [] groups = groups
  group_from fn (x ∷ list) groups = group_from fn list (push (fn x) x groups)

  unfoldable pub group_by : List A → (A → Text) → Groups A
  unfolding group_from
  group_by list fn = group_from fn list []

  -- The group of a key, empty where there is none.
  abbrev pub group_of : Text → Groups A → List A
  group_of key [] = []
  group_of key ((k, xs) ∷ groups) = if text_eq k key then xs else group_of key groups

  hit :
      (b : Bool) (xs gs ys : List A)
      → (if b then xs ++ ys else gs) ≡ (if b then xs else gs) ++ (if b then ys else [])
  hit true xs gs ys = refl
  hit false xs gs ys = sym (append-nil gs)

  miss :
      (b c : Bool) (xs gs ys : List A)
      → (b ≡ true → c ≡ false)
      → (if b then xs else (gs ++ (if c then ys else [])))
        ≡ (if b then xs else gs) ++ (if c then ys else [])
  miss true true xs gs ys h = cc (h refl)
  miss true false xs gs ys h = sym (append-nil xs)
  miss false c xs gs ys h = refl

  group_of-push :
      (key k : Text) (x : A) (groups : Groups A)
      → group_of k (push key x groups) ≡ group_of k groups ++ (if text_eq key k then x ∷ [] else [])
  unfolding push
  group_of-push key k x [] = refl
  group_of-push key k x ((j, xs) ∷ groups) = elim (Bool-cases (text_eq j key)) [
    | inl same ↦
        let e = (text_eq_iff j key).0 same in
        rw same (
          hit (text_eq j k) xs (group_of k groups) (x ∷ [])
          ∙ ap
              (λ t.
                (if text_eq j k then xs else group_of k groups)
                ++ (if text_eq t k then x ∷ [] else []))
              e)
    | inr other ↦ rw other (
        ap (λ gs. if text_eq j k then xs else gs) (group_of-push key k x groups)
        ∙ miss (text_eq j k) (text_eq key k) xs (group_of k groups) (x ∷ [])
            (λ jk. ground (arith, text_eq_iff j k, text_eq_iff key k, text_eq_iff j key)))
  ]

  group_of-group_from :
      (fn : A → Text) (list : List A) (groups : Groups A) (k : Text)
      → group_of k (group_from fn list groups)
        ≡ group_of k groups ++ keep (λ x. text_eq (fn x) k) list
  unfolding group_from
  group_of-group_from fn [] groups k = sym (append-nil (group_of k groups))
  group_of-group_from fn (x ∷ list) groups k =
      group_of-group_from fn list (push (fn x) x groups) k
      ∙ ap (λ t. t ++ keep (λ x. text_eq (fn x) k) list) (group_of-push (fn x) k x groups)
      ∙ append_assoc (group_of k groups) (if text_eq (fn x) k then x ∷ [] else [])
          (keep (λ x. text_eq (fn x) k) list)
      ∙ ap (λ t. group_of k groups ++ t) (kept (text_eq (fn x) k))
    where
      kept :
          (b : Bool)
          → (if b then x ∷ [] else []) ++ keep (λ x. text_eq (fn x) k) list ≡ (
              if b
              then x ∷ keep (λ x. text_eq (fn x) k) list
              else keep (λ x. text_eq (fn x) k) list)
      kept true = refl
      kept false = refl

  -- The group of a key holds the elements with that key, all of them and in the order of the list.
  pub group_of-group_by :
      (list : List A) (fn : A → Text) (k : Text)
      → group_of k (group_by list fn) ≡ keep (λ x. text_eq (fn x) k) list
  unfolding group_by
  group_of-group_by list fn k = group_of-group_from fn list [] k
