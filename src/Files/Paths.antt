-- ===== src/Files/Paths.antt =====
-- Paths as texts: `getFileName` (web/src/utils/utils.js), the parent directory and the name that a
-- renaming asks for (web/src/components/devops/FileSystem.js).
use next_terminal.Base.{
  ℕ, zero, suc, ◌≡◌, refl, ap, Bool, true, false, Option, none, some, [], ◌∷◌, ◌++◌, length, drop,
  ◌==◌, ==_refl, if◌then◌else◌,
}
use mathlib.Core.List.{append_assoc}
use next_terminal.Base.Text.{Text, Lacks}

abbrev pub take : ℕ → Text → Text
take zero s = []
take (suc n) [] = []
take (suc n) (c ∷ s) = c ∷ take n s

-- `s.lastIndexOf(c)`, with `none` for -1
unfoldable pub last_index_of : ℕ → Text → Option ℕ
last_index_of c [] = none
last_index_of c (d ∷ s) = elim (last_index_of c s) [
  | some i ↦ some (suc i)
  | none ↦ if d == c then some 0 else none
]

abbrev pub solidus : ℕ
solidus = b'/'

-- `fullFileName.substring(fullFileName.lastIndexOf('/') + 1, fullFileName.length)`
unfoldable pub get_file_name : Text → Text
get_file_name full = elim (last_index_of solidus full) [ none ↦ full | some i ↦ drop (suc i) full ]

-- `currentDirectory.substring(0, currentDirectory.lastIndexOf('/'))`; -1 counts as 0.
unfoldable pub parent_directory : Text → Text
parent_directory dir = elim (last_index_of solidus dir) [ none ↦ [] | some i ↦ take i dir ]

unfoldable pub ends_with : ℕ → Text → Bool
ends_with c [] = false
ends_with c (d ∷ []) = d == c
ends_with c (d ∷ e ∷ s) = ends_with c (e ∷ s)

-- The path that a file is renamed to.
unfoldable pub renamed : Text → Text → Text
unfolding ends_with
renamed dir name = (if ends_with solidus dir then dir else dir ++ solidus ∷ []) ++ name

last_index_of-Lacks : (c : ℕ) (t : Text) → Lacks c t → last_index_of c t ≡ none
unfolding last_index_of
last_index_of-Lacks c [] h = refl
last_index_of-Lacks c (d ∷ t) h = rw (last_index_of-Lacks c t h.1, h.0)

last_index_of-append :
    (c : ℕ) (s t : Text) → Lacks c t → last_index_of c (s ++ c ∷ t) ≡ some (length s)
unfolding last_index_of
last_index_of-append c [] t h = rw (last_index_of-Lacks c t h, ==_refl c)
last_index_of-append c (d ∷ s) t h = rw (last_index_of-append c s t h)

take-append : (s t : Text) → take (length s) (s ++ t) ≡ s
take-append [] t = refl
take-append (c ∷ s) t = ap (c ∷◌) (take-append s t)

drop-append : (s : Text) (c : ℕ) (t : Text) → drop (suc (length s)) (s ++ c ∷ t) ≡ t
drop-append [] c t = refl
drop-append (d ∷ s) c t = drop-append s c t

-- A directory, a solidus and a name without one are taken apart again by parentDirectory and
-- getFileName.
pub path_parts :
    (dir name : Text)
    → Lacks solidus name
    → (parent_directory (dir ++ solidus ∷ name) ≡ dir)
      × (get_file_name (dir ++ solidus ∷ name) ≡ name)
unfolding parent_directory get_file_name
path_parts dir name h = (
  rw (last_index_of-append solidus dir name h, parent_directory) (take-append dir (solidus ∷ name)),
  rw (last_index_of-append solidus dir name h, get_file_name) (drop-append dir solidus name),
)

ends_with-append : (c : ℕ) (s : Text) → ends_with c (s ++ c ∷ []) ≡ true
unfolding ends_with
ends_with-append c [] = ==_refl c
ends_with-append c (d ∷ []) = ==_refl c
ends_with-append c (d ∷ e ∷ s) = ends_with-append c (e ∷ s)

-- A file renamed in a directory whose path does not end in a solidus keeps its directory and gets
-- the new name, if that has no solidus.
pub renamed_parts :
    (dir name : Text)
    → ends_with solidus dir ≡ false
    → Lacks solidus name
    → (parent_directory (renamed dir name) ≡ dir) × (get_file_name (renamed dir name) ≡ name)
unfolding renamed
renamed_parts dir name e h = rw (e, append_assoc dir (solidus ∷ []) name) (path_parts dir name h)
