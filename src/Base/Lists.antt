-- ===== src/Base/Lists.antt =====
-- Lists measured and indexed by native numbers, under the library's names.
use Prim.Native.Nat.{ℕ, zero, suc, ◌+◌, ◌≤◌, ◌<◌}
use mathlib.Core.Path.{◌≡◌, refl, ap, ap₂}
use mathlib.Core.Bool.{Bool, false, ◌||◌}
use mathlib.Core.List.{List, [], ◌∷◌, ◌++◌, map}
use mathlib.Core.Option.{Option, none, some}
use native.Mathlib.Omega.{arith}
use next_terminal.Base.Tests.{◌==◌, if◌then◌else◌}

module _ {ℓ} {A : Type ℓ} where
  abbrev pub length : List A → ℕ
  length [] = 0
  length (x ∷ xs) = suc (length xs)

  abbrev pub get_elem? : List A → ℕ → Option A
  get_elem? [] i = none
  get_elem? (x ∷ xs) zero = some x
  get_elem? (x ∷ xs) (suc i) = get_elem? xs i

  -- A write out of bounds changes nothing.
  abbrev pub set : List A → ℕ → A → List A
  set [] i v = []
  set (x ∷ xs) zero v = v ∷ xs
  set (x ∷ xs) (suc i) v = x ∷ set xs i v

  -- `xs.filter(p)`, by a Boolean test.
  abbrev pub keep : (A → Bool) → List A → List A
  keep p [] = []
  keep p (x ∷ xs) = if p x then x ∷ keep p xs else keep p xs

  -- `xs.some(p)`, and `xs.includes(x)` with an equality test for `p`.
  abbrev pub any : (A → Bool) → List A → Bool
  any p [] = false
  any p (x ∷ xs) = p x || any p xs

  abbrev pub All {κ} : (A → Type κ) → List A → Type κ
  All P [] = Unit
  All P (x ∷ xs) = P x × All P xs

  pub length-append : (xs ys : List A) → length (xs ++ ys) ≡ length xs + length ys
  length-append [] ys = omega arith
  length-append (x ∷ xs) ys = omega (arith, length-append xs ys)

  pub All-append {κ} : (P : A → Type κ) (xs ys : List A) → All P xs → All P ys → All P (xs ++ ys)
  All-append P [] ys hx hy = hy
  All-append P (x ∷ xs) ys hx hy = (hx.0, All-append P xs ys hx.1 hy)

module _ {ℓ} {A : Type ℓ} where
  abbrev pub get_or : List A → ℕ → A → A
  get_or [] i d = d
  get_or (x ∷ xs) zero d = x
  get_or (x ∷ xs) (suc i) d = get_or xs i d

  abbrev pub drop : ℕ → List A → List A
  drop zero xs = xs
  drop (suc n) [] = []
  drop (suc n) (x ∷ xs) = drop n xs

  abbrev pub take : ℕ → List A → List A
  take zero xs = []
  take (suc n) [] = []
  take (suc n) (x ∷ xs) = x ∷ take n xs

  -- The list without its last element: what `pop` leaves.
  abbrev pub drop_last : List A → List A
  drop_last [] = []
  drop_last (x ∷ []) = []
  drop_last (x ∷ y ∷ xs) = x ∷ drop_last (y ∷ xs)

  pub drop_last-append : (xs : List A) (x : A) → drop_last (xs ++ x ∷ []) ≡ xs
  drop_last-append [] x = refl
  drop_last-append (y ∷ []) x = refl
  drop_last-append (y ∷ z ∷ xs) x = ap (y ∷◌) (drop_last-append (z ∷ xs) x)

-- `Array.from(Array(n)).map((_, i) => i)`, from a first index on.
abbrev pub index_from : ℕ → ℕ → List ℕ
index_from i zero = []
index_from i (suc n) = i ∷ index_from (suc i) n

-- `xs.map((x, i) => …)`, from a first index on.
abbrev pub map_index {ℓ κ} : {A : Type ℓ} {B : Type κ} → (ℕ → A → B) → ℕ → List A → List B
map_index f i [] = []
map_index f i (x ∷ xs) = f i x ∷ map_index f (suc i) xs

-- A list that a function of the index fills.
module _ {ℓ} {A : Type ℓ} where
  pub map-index_from_ext :
      (f g : ℕ → A) (i n : ℕ)
      → ((k : ℕ) → i ≤ k → k < i + n → f k ≡ g k)
      → map f (index_from i n) ≡ map g (index_from i n)
  map-index_from_ext f g i zero h = refl
  map-index_from_ext f g i (suc n) h =
      ap₂ ◌∷◌ (h i (omega arith) (omega arith))
        (map-index_from_ext f g (suc i) n (λ k p q. h k (omega arith) (omega arith)))

  pub get_elem?-map-index_from :
      (f : ℕ → A) (i n k j : ℕ)
      → k < n
      → i + k ≡ j
      → get_elem? (map f (index_from i n)) k ≡ some (f j)
  get_elem?-map-index_from f i zero k j h e = elim h [ ]
  get_elem?-map-index_from f i (suc n) zero j h e = ap (λ j. some (f j)) (omega arith)
  get_elem?-map-index_from f i (suc n) (suc k) j h e =
      get_elem?-map-index_from f (suc i) n k j (omega arith) (omega arith)

  pub set-map-index_from :
      (f : ℕ → A) (i n k j : ℕ) (v : A)
      → i + k ≡ j
      → set (map f (index_from i n)) k v ≡ map (λ x. if x == j then v else f x) (index_from i n)
  set-map-index_from f i zero k j v e = refl
  set-map-index_from f i (suc n) zero j v e =
      ap₂ ◌∷◌ (ground arith)
        (map-index_from_ext f (λ x. if x == j then v else f x) (suc i) n (λ x p q. ground arith))
  set-map-index_from f i (suc n) (suc k) j v e =
      ap₂ ◌∷◌ (ground arith) (set-map-index_from f (suc i) n k j v (omega arith))

module _ {ℓ} {A : Type ℓ} where
  pub All-imp {κ μ} :
      (P : A → Type κ) (Q : A → Type μ) (xs : List A) → ((x : A) → P x → Q x) → All P xs → All Q xs
  All-imp P Q [] f h = tt
  All-imp P Q (x ∷ xs) f h = (f x h.0, All-imp P Q xs f h.1)
