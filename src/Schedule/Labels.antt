-- ===== src/Schedule/Labels.antt =====
-- The labels of the cells: what `formatWeekTime` gives in a zone of a whole number of half hours.
use next_terminal.Base.{
  ℕ, zero, suc, ◌+◌, ◌*◌, ◌/◌, ◌%◌, ◌<◌, ◌≡◌, refl, ◌∙◌, Bool, true, ◌&&◌, [], ◌∷◌, ◌++◌, ap, arith,
  ◌==◌, if◌then◌else◌,
}
use next_terminal.Base.Text.{
  Text, codes, text_eq, text_eq_iff, split, Lacks, split_of_Lacks, split-append,
}
use next_terminal.Schedule.Cells.{Date, format_date, format_week_time, tilde}

-- The clock of a zone that is `offset` minutes ahead of UTC, behind it by a day less.
pub record IsZone (offset : ℕ) (clock : ℕ → Date) : Type 0 where
  pub hours_of : (ms : ℕ) → (clock ms).hours ≡ (ms / 60000 + offset) / 60 % 24
  pub minutes_of : (ms : ℕ) → (clock ms).minutes ≡ (ms / 60000 + offset) % 60

-- "HH:MM" of the half hour `k` of a day.
abbrev pub label : ℕ → Text
label k =
    (b'0' + k / 2 / 10)
    ∷ (b'0' + k / 2 % 10)
    ∷ b':'
    ∷ (if k % 2 == 0 then b'0' else b'3')
    ∷ b'0'
    ∷ []

-- Over a small range, every value by evaluation.
unfoldable pub all_below : ℕ → (ℕ → Bool) → Bool
all_below zero p = true
all_below (suc n) p = p n && all_below n p

pub all_below_sound : (n : ℕ) (p : ℕ → Bool) (x : ℕ) → all_below n p ≡ true → x < n → p x ≡ true
unfolding all_below
all_below_sound zero p x h lt = elim lt [ ]
all_below_sound (suc n) p x h lt = ground (arith, all_below_sound n p x)

abbrev at : Date → ℕ → Date
at d k = record d { hours = k / 2; minutes = k % 2 * 30 }

label_table :
    (d : Date) → all_below 48 (λ k. text_eq (format_date (at d k) (codes "hh:mm")) (label k)) ≡ true
unfolding all_below format_date
label_table d = refl

format_date_label :
    (d : Date) (k : ℕ)
    → d.hours ≡ k / 2
    → d.minutes ≡ k % 2 * 30
    → k < 48
    → format_date d (codes "hh:mm") ≡ label k
format_date_label d k p q h =
    let same : d ≡ at d k = λ i. record d { hours = p i; minutes = q i } in
    ap (λ e. format_date e (codes "hh:mm")) same
    ∙ (text_eq_iff _ _).0 (all_below_sound 48 _ k (label_table d) h)

module _ (z : ℕ) (clock : ℕ → Date) (zone : IsZone (30 * z) clock) where
  format_clock :
      (t ms : ℕ)
      → ms ≡ 1542384000000 + t * 1800000
      → format_date (clock ms) (codes "hh:mm") ≡ label ((t + z + 32) % 48)
  format_clock t ms e =
      format_date_label (clock ms) ((t + z + 32) % 48) (omega (arith, zone.hours_of ms))
        (omega (arith, zone.minutes_of ms)) (omega arith)

  -- The text of a cell: the labels of two half hours, 32 + z half hours ahead of its column.
  pub format_week_time_lem :
      (col : ℕ)
      → format_week_time clock col
        ≡ label ((col + z + 32) % 48) ++ tilde ∷ label ((col + z + 33) % 48)
  unfolding format_week_time
  format_week_time_lem col =
      let last : (col + 1 + z + 32) % 48 ≡ (col + z + 33) % 48 = omega arith in
      rw (
        format_clock col (1542384000000 + col * 1800000) refl,
        format_clock (col + 1) (1542384000000 + col * 1800000 + 1800000) (omega arith),
        last,
      )

pub Lacks-label : (c k : ℕ) → 58 < c → k < 48 → Lacks c (label k)
Lacks-label c k h l = ground arith

-- A label's two parts are found again at the tilde.
pub split_value :
    (a b : ℕ) → a < 48 → b < 48 → split tilde (label a ++ tilde ∷ label b) ≡ label a ∷ label b ∷ []
split_value a b p q =
    split-append tilde (label a) (label b) (Lacks-label tilde b (omega arith) q)
    ∙ ap (λ ps. ps ++ label b ∷ [])
        (split_of_Lacks tilde (label a) (Lacks-label tilde a (omega arith) p))

module _ (z : ℕ) (clock : ℕ → Date) (zone : IsZone (30 * z) clock) where
  pub split-format_week_time :
      (col : ℕ)
      → split tilde (format_week_time clock col)
        ≡ label ((col + z + 32) % 48) ∷ label ((col + z + 33) % 48) ∷ []
  split-format_week_time col =
      ap (split tilde) (format_week_time_lem z clock zone col)
      ∙ split_value _ _ (omega arith) (omega arith)
