-- ===== src/Schedule/Written.antt =====
-- `splicing` writes the runs of a day, and splitting the text at '、' finds them again.
use next_terminal.Base.{
  ℕ, zero, suc, ◌+◌, ◌%◌, ◌<◌, ◌≤◌, ◌≡◌, refl, sym, ap, ◌∙◌, Bool, true, false, List, [], ◌∷◌, ◌++◌,
  map, get_or, drop, drop_last-append, index_from, All, All-append, arith, ◌==◌,
}
use mathlib.Core.List.{flatten, append_assoc}
use next_terminal.Base.Text.{Text, split, Lacks, split_of_Lacks, split-append}
use next_terminal.Schedule.Cells.{Date, item_at, tilde, format_week_time}
use next_terminal.Schedule.Splicing.{comma, splice_end, splice_step, splice_loop, splicing}
use next_terminal.Schedule.Labels.{IsZone, label, Lacks-label, split-format_week_time}
use next_terminal.Schedule.Grid.{Marks, cell}
use next_terminal.Schedule.Intervals.{
  Interval, run_step, runs_from, IsOpen, run_step-IsOpen, IsProper,
}

-- An interval's text; 24:00 is written 00:00.
abbrev pub written : Interval → Text
written (s, e) = label s ++ tilde ∷ label (e % 48)

-- The array of pieces for a list of runs, the last run first.
abbrev pieces : List Interval → List Text
pieces [] = []
pieces ((s, e) ∷ ivs) = pieces ivs ++ ((comma ∷ []) ∷ label s ∷ (tilde ∷ []) ∷ label (e % 48) ∷ [])

splice_end-append : (xs : List Text) (d e : Text) → splice_end (xs ++ d ∷ []) e ≡ xs ++ e ∷ []
unfolding splice_end
splice_end-append [] d e = refl
splice_end-append (x ∷ xs) d e = ap (λ ys. ys ++ e ∷ []) (drop_last-append (x ∷ xs) d)

splice_end-pieces :
    (xs : List Text) (a b c d e : Text)
    → splice_end (xs ++ (a ∷ b ∷ c ∷ d ∷ [])) e ≡ xs ++ (a ∷ b ∷ c ∷ e ∷ [])
splice_end-pieces xs a b c d e =
    ap (λ ys. splice_end ys e) (sym (append_assoc xs (a ∷ b ∷ c ∷ []) (d ∷ [])))
    ∙ splice_end-append (xs ++ (a ∷ b ∷ c ∷ [])) d e
    ∙ append_assoc xs (a ∷ b ∷ c ∷ []) (e ∷ [])

module _ (clock : ℕ → Date) (zone : IsZone 480 clock) where
  begin-label : (c : ℕ) → c < 48 → get_or (split tilde (format_week_time clock c)) 0 [] ≡ label c
  begin-label c h =
      ap (λ ps. get_or ps 0 []) (split-format_week_time 16 clock zone c) ∙ ap label (omega arith)

  end-label : (c : ℕ) → get_or (split tilde (format_week_time clock c)) 1 [] ≡ label ((c + 1) % 48)
  end-label c =
      ap (λ ps. get_or ps 1 []) (split-format_week_time 16 clock zone c) ∙ ap label (omega arith)

  splice_step-pieces :
      (week : Text) (r c : ℕ) (b same : Bool) (ivs : List Interval)
      → c < 48
      → IsOpen same c ivs
      → splice_step (pieces ivs) same (item_at clock week r c b) ≡ pieces (run_step b c same ivs)
  splice_step-pieces week r c false same ivs l h = refl
  splice_step-pieces week r c true false ivs l h = rw (begin-label c l, end-label c)
  splice_step-pieces week r c true true [] l h = elim h [ ]
  splice_step-pieces week r c true true ((s, e) ∷ ivs) l h =
      splice_end-pieces (pieces ivs) (comma ∷ []) (label s) (tilde ∷ []) (label (e % 48))
        (get_or (split tilde (format_week_time clock c)) 1 [])
      ∙ ap (λ t. pieces ivs ++ ((comma ∷ []) ∷ label s ∷ (tilde ∷ []) ∷ t ∷ []))
          (end-label c ∙ ap (λ k. label ((k + 1) % 48)) (sym h))

  splice_loop-pieces :
      (week : Text) (r : ℕ) (m : Marks) (i n : ℕ) (same : Bool) (ivs : List Interval)
      → i + n ≤ 48
      → IsOpen same i ivs
      → splice_loop (map (cell clock week r m) (index_from i n)) same (pieces ivs)
        ≡ pieces (runs_from (m r) i n same ivs)
  unfolding splice_loop runs_from
  splice_loop-pieces week r m i zero same ivs l h = refl
  splice_loop-pieces week r m i (suc n) same ivs l h =
      ap (splice_loop (map (cell clock week r m) (index_from (suc i) n)) (m r i))
        (splice_step-pieces week r i (m r i) same ivs (omega arith) h)
      ∙ splice_loop-pieces week r m (suc i) n (m r i) (run_step (m r i) i same ivs) (omega arith)
          (run_step-IsOpen (m r i) i same ivs h)

-- The written intervals, the earliest first.
abbrev pub all_written : List Interval → List Text
all_written [] = []
all_written (iv ∷ ivs) = all_written ivs ++ written iv ∷ []

-- The same joined by '、'.
abbrev pub joined : List Interval → Text
joined [] = []
joined (iv ∷ []) = written iv
joined (iv ∷ iv' ∷ ivs) = joined (iv' ∷ ivs) ++ comma ∷ written iv

flatten-append : (xs ys : List Text) → flatten (xs ++ ys) ≡ flatten xs ++ flatten ys
unfolding flatten
flatten-append [] ys = refl
flatten-append (x ∷ xs) ys =
    ap (λ t. x ++ t) (flatten-append xs ys) ∙ sym (append_assoc x (flatten xs) (flatten ys))

flatten-pieces :
    (iv : Interval) (ivs : List Interval)
    → (rest : List Text) × (pieces (iv ∷ ivs) ≡ (comma ∷ []) ∷ rest)
      × (flatten rest ≡ joined (iv ∷ ivs))
unfolding flatten
flatten-pieces (s, e) [] = (_, refl, refl)
flatten-pieces (s, e) (iv' ∷ ivs) =
    let (rest, p, q) = flatten-pieces iv' ivs in
    (
      rest ++ ((comma ∷ []) ∷ label s ∷ (tilde ∷ []) ∷ label (e % 48) ∷ []),
      rw p,
      flatten-append rest ((comma ∷ []) ∷ label s ∷ (tilde ∷ []) ∷ label (e % 48) ∷ [])
          ∙ ap (λ t. t ++ comma ∷ written (s, e)) q,
    )

flatten-drop-pieces : (ivs : List Interval) → flatten (drop 1 (pieces ivs)) ≡ joined ivs
unfolding flatten
flatten-drop-pieces [] = refl
flatten-drop-pieces (iv ∷ ivs) =
    let (rest, p, q) = flatten-pieces iv ivs in ap (λ ps. flatten (drop 1 ps)) p ∙ q

Lacks-written : (iv : Interval) → IsProper iv → Lacks comma (written iv)
Lacks-written (s, e) p =
    All-append (λ d. (d == comma) ≡ false) (label s) (tilde ∷ label (e % 48))
      (Lacks-label comma s (omega arith) (omega arith))
      (refl, Lacks-label comma (e % 48) (omega arith) (omega arith))

-- Splitting at '、' gives back the written intervals.
pub split-joined :
    (iv : Interval) (ivs : List Interval)
    → All IsProper (iv ∷ ivs)
    → split comma (joined (iv ∷ ivs)) ≡ all_written (iv ∷ ivs)
split-joined iv [] p = split_of_Lacks comma (written iv) (Lacks-written iv p.0)
split-joined iv (iv' ∷ ivs) p =
    split-append comma (joined (iv' ∷ ivs)) (written iv) (Lacks-written iv p.0)
    ∙ ap (λ ps. ps ++ written iv ∷ []) (split-joined iv' ivs p.1)

-- The runs of a whole day.
abbrev pub day_runs : (ℕ → Bool) → List Interval
day_runs marks = runs_from marks 0 48 false []

-- The text of a day is that of its runs, joined.
pub splicing-joined :
    (clock : ℕ → Date) (zone : IsZone 480 clock) (week : Text) (r : ℕ) (m : Marks)
    → splicing (map (cell clock week r m) (index_from 0 48)) ≡ joined (day_runs (m r))
unfolding splicing
splicing-joined clock zone week r m =
    ap (λ ps. flatten (drop 1 ps))
      (splice_loop-pieces clock zone week r m 0 48 false [] (omega arith) tt)
    ∙ flatten-drop-pieces (day_runs (m r))
