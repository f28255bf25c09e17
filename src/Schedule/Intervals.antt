-- ===== src/Schedule/Intervals.antt =====
-- The maximal runs of checked half hours of a day, and that `splicing` writes exactly these.
use next_terminal.Base.{
  ℕ, zero, suc, ◌+◌, ◌<◌, ◌≤◌, ◌≡◌, ◌∙◌, Bool, true, false, ◌&&◌, ◌||◌, List, [], ◌∷◌, ltb, leb,
  if◌then◌else◌, any, All, arith,
}

-- A half-open interval of half hours.
abbrev pub Interval : Type 0
Interval = ℕ × ℕ

-- The last interval first, as the loop meets them.
abbrev pub extend : List Interval → List Interval
extend [] = []
extend ((s, e) ∷ ivs) = (s, e + 1) ∷ ivs

abbrev pub run_step : Bool → ℕ → Bool → List Interval → List Interval
run_step mark i same ivs = if mark then (if same then extend ivs else (i, i + 1) ∷ ivs) else ivs

unfoldable pub runs_from : (ℕ → Bool) → ℕ → ℕ → Bool → List Interval → List Interval
runs_from m i zero same ivs = ivs
runs_from m i (suc n) same ivs = runs_from m (suc i) n (m i) (run_step (m i) i same ivs)

abbrev pub covers : ℕ → Interval → Bool
covers c (s, e) = leb s c && ltb c e

abbrev pub covered : List Interval → ℕ → Bool
covered ivs c = any (covers c) ivs

-- While the cell before is checked, the last interval ends where the loop stands.
abbrev pub IsOpen : Bool → ℕ → List Interval → Type 0
IsOpen false i ivs = Unit
IsOpen true i [] = ⊥
IsOpen true i ((s, e) ∷ ivs) = e ≡ i

abbrev pub IsProper : Interval → Type 0
IsProper (s, e) = (s < e) × (e ≤ 48)

pub run_step-IsOpen :
    (b : Bool) (i : ℕ) (same : Bool) (ivs : List Interval)
    → IsOpen same i ivs
    → IsOpen b (suc i) (run_step b i same ivs)
run_step-IsOpen false i same ivs h = tt
run_step-IsOpen true i false ivs h = omega arith
run_step-IsOpen true i true [] h = h
run_step-IsOpen true i true ((s, e) ∷ ivs) h = omega arith

run_step-IsProper :
    (b : Bool) (i : ℕ) (same : Bool) (ivs : List Interval)
    → i < 48
    → IsOpen same i ivs
    → All IsProper ivs
    → All IsProper (run_step b i same ivs)
run_step-IsProper false i same ivs l h p = p
run_step-IsProper true i false ivs l h p = ((omega arith, omega arith), p)
run_step-IsProper true i true [] l h p = tt
run_step-IsProper true i true ((s, e) ∷ ivs) l h p = ((omega arith, omega arith), p.1)

covered-run_step :
    (b : Bool) (i : ℕ) (same : Bool) (ivs : List Interval)
    → IsOpen same i ivs
    → All IsProper ivs
    → (c : ℕ) → covered (run_step b i same ivs) c ≡ (covered ivs c || (leb i c && (leb c i && b)))
covered-run_step false i same ivs h p c = ground arith
covered-run_step true i false ivs h p c = ground arith
covered-run_step true i true [] h p c = elim h [ ]
covered-run_step true i true ((s, e) ∷ ivs) h p c = ground arith

module _ (m : ℕ → Bool) where
  pub runs_from-IsProper :
      (i n : ℕ) (same : Bool) (ivs : List Interval)
      → i + n ≤ 48
      → IsOpen same i ivs
      → All IsProper ivs
      → All IsProper (runs_from m i n same ivs)
  unfolding runs_from
  runs_from-IsProper i zero same ivs l h p = p
  runs_from-IsProper i (suc n) same ivs l h p =
      runs_from-IsProper (suc i) n (m i) (run_step (m i) i same ivs) (omega arith)
        (run_step-IsOpen (m i) i same ivs h) (run_step-IsProper (m i) i same ivs (omega arith) h p)

  -- The runs cover the marks of the cells that the loop has met, and no others.
  pub covered-runs_from :
      (i n : ℕ) (same : Bool) (ivs : List Interval)
      → i + n ≤ 48
      → IsOpen same i ivs
      → All IsProper ivs
      → (c : ℕ)
      → covered (runs_from m i n same ivs) c
        ≡ (covered ivs c || (leb i c && (ltb c (i + n) && m c)))
  unfolding runs_from
  covered-runs_from i zero same ivs l h p c = ground arith
  covered-runs_from i (suc n) same ivs l h p c =
      covered-runs_from (suc i) n (m i) (run_step (m i) i same ivs) (omega arith)
        (run_step-IsOpen (m i) i same ivs h) (run_step-IsProper (m i) i same ivs (omega arith) h p)
        c
      ∙ merged
    where
      merged :
          (covered (run_step (m i) i same ivs) c || (leb (suc i) c && (ltb c (suc i + n) && m c)))
          ≡ (covered ivs c || (leb i c && (ltb c (i + suc n) && m c)))
      merged = rw (covered-run_step (m i) i same ivs h p c) (ground arith)
