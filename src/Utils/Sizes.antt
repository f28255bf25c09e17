-- ===== src/Utils/Sizes.antt =====
-- Sizes as texts: `renderSize` (web/src/utils/utils.js) of a whole number of bytes. The logarithms are the
-- engine's, whose quotient rounds: `log_floor` is the floor of that quotient.
use next_terminal.Base.{
  ℕ, zero, suc, ◌+◌, ◌*◌, ◌/◌, ◌%◌, ◌≤◌, ◌<◌, Option, none, some, List, [], ◌∷◌, ◌++◌, ltb,
  if◌then◌else◌, ◌==◌, get_or, Bool-cases, inl, inr, arith,
}
use next_terminal.Base.Text.{Text, codes, decimal}
use next_terminal.Utils.Times.{zero_pad}

-- `Math.pow(1024, index)`
unfoldable pub power : ℕ → ℕ
power zero = 1
power (suc index) = 1024 * power index

-- The hundredths of `size.toFixed(2)`, of a fraction: the nearest, and the larger of two.
unfoldable pub hundredths : (n d : ℕ) → ℕ
hundredths n d = (200 * n + d) / (2 * d)

abbrev units : List Text
units =
    codes "B"
    ∷ codes "KB"
    ∷ codes "MB"
    ∷ codes "GB"
    ∷ codes "TB"
    ∷ codes "PB"
    ∷ codes "EB"
    ∷ codes "ZB"
    ∷ codes "YB"
    ∷ []

unfoldable pub unit : ℕ → Text
unit index = get_or units index (codes "undefined")

-- A number of hundredths with two digits behind the point, and a unit.
unfoldable pub size_text : (hundredths index : ℕ) → Text
unfolding unit
size_text c index = decimal (c / 100) ++ (b'.' ∷ (zero_pad (c % 100) 2 ++ (b' ' ∷ unit index)))

unfoldable pub render_size : (log_floor : ℕ → ℕ) → Option ℕ → Text
unfolding size_text hundredths power
render_size log_floor none = codes "0 B"
render_size log_floor (some value) =
    if value == 0
    then codes "0 B"
    else let index = log_floor value in size_text (hundredths value (power index)) index

-- The number lies between two powers.
abbrev pub LiesAt : (n index : ℕ) → Type 0
LiesAt n index = (power index ≤ n) × (n < power (suc index))

-- The quotient of the logarithms rounds to the right side of the whole numbers for sizes below a bound.
abbrev pub IsExactBelow : (bound : ℕ) → (ℕ → ℕ) → Type 0
IsExactBelow bound log_floor = (n : ℕ) → 0 < n → n < bound → LiesAt n (log_floor n)

-- The whole part of a logarithm to the base 1024, on fuel: each round divides the number, so that the
-- number itself is enough.
unfoldable pub index_of : (fuel src_size : ℕ) → ℕ
index_of zero src_size = 0
index_of (suc fuel) src_size =
    let rest = index_of fuel (src_size / 1024) in if ltb src_size 1024 then 0 else suc rest

LiesAt-div : (n index : ℕ) → LiesAt (n / 1024) index → LiesAt n (suc index)
unfolding power
LiesAt-div n index (low, high) = (omega (arith, low), omega (arith, high))

pub index_of-LiesAt : (fuel n : ℕ) → n ≤ fuel → 0 < n → LiesAt n (index_of fuel n)
unfolding index_of power
index_of-LiesAt zero n enough some' = absurd (omega (arith, enough, some'))
index_of-LiesAt (suc fuel) n enough some' = elim (Bool-cases (ltb n 1024)) [
  | inl small ↦ rw small (omega (arith, some'), ground (arith, small))
  | inr big ↦
      let large : 1024 ≤ n = ground (arith, big) in
      rw big (
        LiesAt-div n (index_of fuel (n / 1024))
          (index_of-LiesAt fuel (n / 1024) (omega (arith, enough, large)) (omega (arith, large))))
]

-- No other number of hundredths is nearer.
abbrev pub IsNearest : (c n d : ℕ) → Type 0
IsNearest c n d = (2 * d * c ≤ 200 * n + d) × (200 * n < 2 * d * c + d)
