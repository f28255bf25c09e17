-- ===== src/Utils/Times.antt =====
-- Times as texts: `zeroPad` (web/src/utils/strings.js), `formatTime` (web/src/utils/times.js), and
-- `isLeapYear` (web/src/utils/utils.js).
use next_terminal.Base.{
  ℕ, zero, suc, ◌+◌, ◌-◌, ◌*◌, ◌/◌, ◌%◌, ◌≤◌, ◌<◌, ◌≡◌, refl, ap, ◌∙◌, ◌↔◌, ◌⊎◌, Bool, true, false,
  not, ◌&&◌, ◌||◌, List, [], ◌∷◌, ◌++◌, length, ltb, ◌==◌, All-append, Bool-cases, inl, inr,
  le_of_not_ltb, arith,
}
use next_terminal.Base.Text.{
  Text, decimal, decimal_fuel, split, Lacks, split_of_Lacks, split-append,
}

-- The loop of `zeroPad`, on the number of zeros that are missing.
zeros : ℕ → Text → Text
zeros zero s = s
zeros (suc n) s = b'0' ∷ zeros n s

unfoldable pub zero_pad : ℕ → ℕ → Text
unfolding zeros
zero_pad num min_length = let str = decimal num in zeros (min_length - length str) str

abbrev pub colon : ℕ
colon = b':'

unfoldable pub format_time : ℕ → Text
format_time millis =
    let total_seconds = millis / 1000 in
    zero_pad (total_seconds / 60) 2 ++ colon ∷ zero_pad (total_seconds % 60) 2

unfoldable pub is_leap_year : ℕ → Bool
is_leap_year year = (year % 4 == 0 && not (year % 100 == 0)) || (year % 100 == 0 && year % 400 == 0)

-- A year is a leap year exactly when 4 divides it and, if 100 does, 400 does too.
pub is_leap_year_iff :
    (year : ℕ)
    → (is_leap_year year ≡ true) ↔ ((year % 4 ≡ 0) × ((year % 100 ≡ 0 → ⊥) ⊎ (year % 400 ≡ 0)))
unfolding is_leap_year
is_leap_year_iff year = ground arith

-- The number that digits stand for.
pub number : ℕ → Text → ℕ
number acc [] = acc
number acc (c ∷ s) = number (acc * 10 + (c - b'0')) s

number-append :
    (acc : ℕ) (s : Text) (c : ℕ) → number acc (s ++ c ∷ []) ≡ number acc s * 10 + (c - b'0')
unfolding number
number-append acc [] c = refl
number-append acc (d ∷ s) c = number-append (acc * 10 + (d - b'0')) s c

number-decimal_fuel : (f n : ℕ) → n < f → number 0 (decimal_fuel f n) ≡ n
unfolding decimal_fuel
number-decimal_fuel zero n h = elim h [ ]
number-decimal_fuel (suc f) n h = elim (Bool-cases (ltb n 10)) [
  | inl small ↦ rw small (unfold number in ground arith)
  | inr large ↦ rw large (
      number-append 0 (decimal_fuel f (n / 10)) (b'0' + n % 10)
      ∙ ap (λ (t : ℕ). t * 10 + (b'0' + n % 10 - b'0'))
          (number-decimal_fuel f (n / 10)
            (let le : 10 ≤ n = le_of_not_ltb n 10 large in omega arith))
      ∙ omega arith)
]

number-zeros : (n : ℕ) (s : Text) → number 0 (zeros n s) ≡ number 0 s
unfolding number zeros
number-zeros zero s = refl
number-zeros (suc n) s = number-zeros n s

-- Padding with zeros keeps the number.
pub number-zero_pad : (num min_length : ℕ) → number 0 (zero_pad num min_length) ≡ num
unfolding zero_pad decimal
number-zero_pad num min_length =
    number-zeros (min_length - length (decimal num)) (decimal num)
    ∙ number-decimal_fuel (suc num) num (omega arith)

Lacks-decimal_fuel : (f n : ℕ) → Lacks colon (decimal_fuel f n)
unfolding decimal_fuel
Lacks-decimal_fuel zero n = tt
Lacks-decimal_fuel (suc f) n = elim (Bool-cases (ltb n 10)) [
  | inl small ↦ rw small (ground arith, tt)
  | inr large ↦ rw large (
      All-append (λ d. (d == colon) ≡ false) (decimal_fuel f (n / 10)) ((b'0' + n % 10) ∷ [])
        (Lacks-decimal_fuel f (n / 10)) (ground arith, tt))
]

Lacks-zeros : (n : ℕ) (s : Text) → Lacks colon s → Lacks colon (zeros n s)
unfolding zeros
Lacks-zeros zero s h = h
Lacks-zeros (suc n) s h = (refl, Lacks-zeros n s h)

Lacks-zero_pad : (num min_length : ℕ) → Lacks colon (zero_pad num min_length)
unfolding zero_pad decimal
Lacks-zero_pad num min_length =
    Lacks-zeros (min_length - length (decimal num)) (decimal num) (Lacks-decimal_fuel (suc num) num)

-- The seconds that the two parts of a time stand for.
abbrev pub seconds_of : List Text → ℕ
seconds_of (minutes ∷ seconds ∷ []) = number 0 minutes * 60 + number 0 seconds
seconds_of _ = 0

-- A formatted time reads back as its whole seconds, for any number of minutes.
pub seconds_of-format_time :
    (millis : ℕ) → seconds_of (split colon (format_time millis)) ≡ millis / 1000
unfolding format_time
seconds_of-format_time millis =
    let minutes = millis / 1000 / 60 in
    let seconds = millis / 1000 % 60 in
    ap seconds_of (
      split-append colon (zero_pad minutes 2) (zero_pad seconds 2) (Lacks-zero_pad seconds 2)
      ∙ ap (λ ps. ps ++ zero_pad seconds 2 ∷ [])
          (split_of_Lacks colon (zero_pad minutes 2) (Lacks-zero_pad minutes 2)))
    ∙ omega (arith, number-zero_pad minutes 2, number-zero_pad seconds 2)
