-- ===== src/Shell/Title.antt =====
-- The title of the window (web/src/hook/title.js), in front of which the name of the product stays.
use next_terminal.Base.{
  ℕ, ◌≡◌, refl, ap, Option, none, some, [], ◌∷◌, ◌++◌, if◌then◌else◌, ◌==◌, Bool-cases, inl, inr,
  get_or,
}
use next_terminal.Base.Text.{Text, has_text, split, split-ne-nil}

-- `｜`, U+FF5C
abbrev pub bar : ℕ
bar = 65372

-- `document.title.split('｜')[0]`
unfoldable pub first_part : Text → Text
unfolding split
first_part title = get_or (split bar title) 0 []

abbrev titled : Text → Option Text → Text
titled first none = first
titled first (some t) = if has_text t then first ++ bar ∷ t else first

unfoldable pub set_title : Option Text → Text → Text
unfolding first_part
set_title title document_title = titled (first_part document_title) title

first_part-cons :
    (c : ℕ) (s : Text) → first_part (c ∷ s) ≡ (if c == bar then [] else c ∷ first_part s)
unfolding first_part split
first_part-cons c s =
    let (p, ps, e) = split-ne-nil bar s in
    elim (Bool-cases (c == bar)) [ inl here ↦ rw here refl | inr other ↦ rw (other, e) refl ]

first_part-bar : (t : Text) → first_part (bar ∷ t) ≡ []
first_part-bar t = first_part-cons bar t

first_part-nil : first_part [] ≡ []
unfolding first_part split
first_part-nil = refl

first_part-append : (s t : Text) → first_part (first_part s ++ bar ∷ t) ≡ first_part s
first_part-append [] t = simp (first_part-nil, first_part-bar t)
first_part-append (c ∷ s) t = elim (Bool-cases (c == bar)) [
  | inl here ↦ simp (first_part-cons c s, here, first_part-bar t)
  | inr other ↦ simp (
    first_part-cons c s,
    other,
    first_part-cons c (first_part s ++ bar ∷ t),
    first_part-append s t,
  )
]

first_part-again : (s : Text) → first_part (first_part s) ≡ first_part s
first_part-again [] = simp first_part-nil
first_part-again (c ∷ s) = elim (Bool-cases (c == bar)) [
  | inl here ↦ simp (first_part-cons c s, here, first_part-nil)
  | inr other ↦
      simp (first_part-cons c s, other, first_part-cons c (first_part s), first_part-again s)
]

first_part-titled :
    (s : Text) (title : Option Text) → first_part (titled (first_part s) title) ≡ first_part s
first_part-titled s none = first_part-again s
first_part-titled s (some []) = first_part-again s
first_part-titled s (some (c ∷ t)) = first_part-append s (c ∷ t)

-- A title replaces the one before it.
pub set_title-set_title :
    (title last : Option Text) (document_title : Text)
    → set_title last (set_title title document_title) ≡ set_title last document_title
unfolding set_title
set_title-set_title title last document_title =
    ap (λ t. titled t last) (first_part-titled document_title title)
