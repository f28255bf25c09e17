-- ===== src/Tests/UtilsRuns.antt =====
-- The helpers under web/src/utils on concrete values.
use next_terminal.Base.{ℕ, List, [], ◌∷◌}
use next_terminal.Base.Text.{Text, codes}

abbrev before : List Text
before = codes "a" ∷ codes "b" ∷ []

abbrev after : List Text
after = codes "b" ∷ codes "c" ∷ []

abbrev same : Text → Text
same t = t

-- A day, two hours, three minutes and four seconds
abbrev stay : ℕ
stay = 93784000

-- A year of 365 days
abbrev common_year : ℕ
common_year = 31536000000
