-- ===== src/Base/Text.antt =====
-- Text as the list of its UTF-16 code units, where the program walks it: equality, splitting at a
-- separator, joining.
use Prim.Native.Nat.{ℕ, zero, suc, ◌+◌, ◌/◌, ◌%◌}
use Prim.Native.Char.{code}
use Prim.Native.String.{String}
use mathlib.Core.Path.{◌≡◌, refl, sym, ap, ◌∙◌}
use mathlib.Core.Logic.{◌↔◌, inl, inr}
use mathlib.Core.Bool.{Bool, true, false, ◌&&◌}
use mathlib.Core.List.{List, [], ◌∷◌, ◌++◌}
use native.Mathlib.Omega.{arith}
use next_terminal.Base.Tests.{ltb, ◌==◌, if◌then◌else◌, Bool-cases, ==_iff}
use next_terminal.Base.Lists.{All}

abbrev pub Text : Type 0
Text = List ℕ

-- The code units of a literal, none of which lies above U+FFFF here.
abbrev pub codes : String → Text
codes String.[] = []
codes (String.◌∷◌ c s) = code c ∷ codes s

abbrev pub text_eq : Text → Text → Bool
text_eq [] [] = true
text_eq (a ∷ s) (b ∷ t) = (a == b) && text_eq s t
text_eq _ _ = false

pub text_eq_iff : (s t : Text) → (text_eq s t ≡ true) ↔ (s ≡ t)
text_eq_iff [] [] = ground arith
text_eq_iff [] (b ∷ t) = ground arith
text_eq_iff (a ∷ s) [] = ground arith
text_eq_iff (a ∷ s) (b ∷ t) = ground (arith, text_eq_iff s t)

-- `hasText` and `isEmpty` of a present string.
abbrev pub has_text : Text → Bool
has_text [] = false
has_text (_ ∷ _) = true

-- One more unit in front of the first piece.
abbrev grow : ℕ → List Text → List Text
grow c [] = (c ∷ []) ∷ []
grow c (p ∷ ps) = (c ∷ p) ∷ ps

-- `text.split(sep)` for a separator of one code unit.
unfoldable pub split : ℕ → Text → List Text
split sep [] = [] ∷ []
split sep (c ∷ s) = if c == sep then [] ∷ split sep s else grow c (split sep s)

abbrev pub Lacks : ℕ → Text → Type 0
Lacks c s = All (λ d. (d == c) ≡ false) s

-- A text without the separator is one piece.
pub split_of_Lacks : (sep : ℕ) (s : Text) → Lacks sep s → split sep s ≡ s ∷ []
unfolding split
split_of_Lacks sep [] h = refl
split_of_Lacks sep (c ∷ s) h = rw (h.0, split_of_Lacks sep s h.1)

pub split-ne-nil : (sep : ℕ) (s : Text) → (p : Text) × (ps : List Text) × (split sep s ≡ p ∷ ps)
unfolding split
split-ne-nil sep [] = ([], [], refl)
split-ne-nil sep (c ∷ s) =
    let (p, ps, e) = split-ne-nil sep s in
    elim (Bool-cases (c == sep)) [
      | inl here ↦ ([], split sep s, rw here)
      | inr other ↦ (c ∷ p, ps, rw (other, e))
    ]

-- A text ends in one more piece when a separator and a text without one are put behind it.
pub split-append :
    (sep : ℕ) (s t : Text) → Lacks sep t → split sep (s ++ sep ∷ t) ≡ split sep s ++ t ∷ []
unfolding split
split-append sep [] t h = ground (arith, split_of_Lacks sep t h)
split-append sep (c ∷ s) t h =
    let (p, ps, e) = split-ne-nil sep s in
    let ih = split-append sep s t h in
    elim (Bool-cases (c == sep)) [ inl here ↦ rw (here, ih) | inr other ↦ rw (other, ih, e) ]

-- `pieces.join(sep)` for a separator of one code unit.
unfoldable pub join : ℕ → List Text → Text
join sep [] = []
join sep (t ∷ []) = t
join sep (t ∷ u ∷ ts) = t ++ sep ∷ join sep (u ∷ ts)

join-grow :
    (sep c : ℕ) (p : Text) (ps : List Text) → join sep (grow c (p ∷ ps)) ≡ c ∷ join sep (p ∷ ps)
unfolding join
join-grow sep c p [] = refl
join-grow sep c p (q ∷ ps) = refl

-- The pieces of a text, joined at the separator, are the text.
pub join-split : (sep : ℕ) (s : Text) → join sep (split sep s) ≡ s
unfolding split join
join-split sep [] = refl
join-split sep (c ∷ s) =
    let (p, ps, e) = split-ne-nil sep s in
    let ih : join sep (p ∷ ps) ≡ s = ap (join sep) (sym e) ∙ join-split sep s in
    elim (Bool-cases (c == sep)) [
      | inl here ↦ rw (here, e) (ground (arith, ==_iff c sep))
      | inr other ↦ rw (other, e) (join-grow sep c p ps ∙ ap (c ∷◌) ih)
    ]

-- `'' + n`, on fuel that no number exceeds in digits.
unfoldable pub decimal_fuel : ℕ → ℕ → Text
decimal_fuel zero n = []
decimal_fuel (suc f) n =
    let rest = decimal_fuel f (n / 10) in
    if ltb n 10 then (b'0' + n) ∷ [] else rest ++ (b'0' + n % 10) ∷ []

unfoldable pub decimal : ℕ → Text
unfolding decimal_fuel
decimal n = decimal_fuel (suc n) n
