-- ===== src/Access/Stats.antt =====
-- The statistics of a remote machine (web/src/components/access/Stats.js). A number that need not be whole
-- is a fraction, of which the denominator may be 0 as in the source; how `toFixed` and `renderSize` write
-- one is left open.
use next_terminal.Base.{
  ℕ, suc, ◌+◌, ◌-◌, ◌*◌, ◌/◌, ◌∙◌, zero, ◌≡◌, ◌↔◌, ◌⊎◌, inl, inr, refl, Option, none, some, List,
  [], ◌∷◌, map, ◌==◌, if◌then◌else◌, arith,
}
use native.Mathlib.Nat.{eq_of_mul-eq-mul_left}
use next_terminal.Base.Text.{Text, text_eq}

abbrev pub Frac : Type 0
Frac = ℕ × ℕ

-- What an interface has received and sent since the machine began.
pub record Interface : Type 0 where
  pub ipv4 : Text
  pub rx : ℕ
  pub tx : ℕ

pub record Disk : Type 0 where
  pub mount_point : Text
  pub used : ℕ
  pub free : ℕ

pub record Cpu : Type 0 where
  pub user : Frac
  pub system : Frac
  pub nice : Frac
  pub idle : Frac
  pub io_wait : Frac
  pub irq : Frac
  pub soft_irq : Frac
  pub guest : Frac

pub record Stats : Type 0 where
  pub hostname : Option Text
  pub uptime : ℕ
  pub load : List Frac
  pub mem_total : ℕ
  pub mem_free : ℕ
  pub mem_available : ℕ
  pub mem_buffers : ℕ
  pub mem_cached : ℕ
  pub swap_total : ℕ
  pub swap_free : ℕ
  pub network : List (Text × Interface)
  pub file_systems : List Disk
  pub cpu : Cpu

abbrev nothing : Frac
nothing = (0, 1)

unfoldable pub default_stats : Stats
default_stats = record {
  hostname = none;
  uptime = 0;
  load = nothing ∷ nothing ∷ nothing ∷ [];
  mem_total = 0;
  mem_free = 0;
  mem_available = 0;
  mem_buffers = 0;
  mem_cached = 0;
  swap_total = 0;
  swap_free = 0;
  network = [];
  file_systems = [];
  cpu = record {
    user = nothing;
    system = nothing;
    nice = nothing;
    idle = nothing;
    io_wait = nothing;
    irq = nothing;
    soft_irq = nothing;
    guest = nothing;
  };
}

-- The two states; `prev_network` is `none` before the first answer, when the earlier state has no field.
pub record Page : Type 0 where
  pub stats : Stats
  pub prev_network : Option (List (Text × Interface))

unfoldable pub initial_page : Page
unfolding default_stats
initial_page = record { stats = default_stats; prev_network = none }

-- `onSuccess`
unfoldable pub on_success : Stats → Page → Page
on_success data' page = record { stats = data'; prev_network = some page.stats.network }

-- Whole days, of an uptime above 86 milliseconds.
unfoldable pub up_days : Stats → ℕ
up_days stats = stats.uptime / 86400000

unfoldable pub mem_usage : Stats → Frac
mem_usage stats = ((stats.mem_total - stats.mem_available) * 100, stats.mem_total)

unfoldable pub swap_usage : Stats → Frac
swap_usage stats =
    if stats.swap_total == 0
    then (0, 1)
    else ((stats.swap_total - stats.swap_free) * 100, stats.swap_total)

unfoldable pub disk_usage : Disk → Frac
disk_usage disk = (disk.used * 100, disk.used + disk.free)

abbrev pub interface_of : Text → List (Text × Interface) → Option Interface
interface_of key [] = none
interface_of key ((k, i) ∷ network) = if text_eq k key then some i else interface_of key network

-- A change in bytes by the second: what was gained, or lost where the counter began anew.
pub record Rate : Type 0 where
  pub gained : Frac
  pub lost : Frac

-- The difference of two counters by 5 seconds.
unfoldable pub rate_of : (new old : ℕ) → Rate
rate_of new old = record { gained = (new - old, 5); lost = (old - new, 5) }

abbrev no_rate : Rate
no_rate = record { gained = (0, 1); lost = (0, 1) }

abbrev rates_from : Interface → Option Interface → Rate × Rate
rates_from now none = (no_rate, no_rate)
rates_from now (some old) = (rate_of now.rx old.rx, rate_of now.tx old.tx)

abbrev rates_since : List (Text × Interface) → List (Text × Interface) → List (Text × (Rate × Rate))
rates_since prev network =
    map (λ entry. (entry.0, rates_from entry.1 (interface_of entry.0 prev))) network

-- The rates of all interfaces, received and sent. Without an earlier state the first interface throws.
unfoldable pub rates : Page → Option (List (Text × (Rate × Rate)))
unfolding rate_of
rates page = elim page.prev_network [
  | none ↦ elim page.stats.network [ [] ↦ some [] | i ∷ is ↦ none ]
  | some prev ↦ some (rates_since prev page.stats.network)
]

-- `setQueryInterval(parseInt(value))`, of the choices 1000, 5000, 15000 and 30000 milliseconds, and which
-- are drawn.
abbrev pub intervals : List ℕ
intervals = 1000 ∷ 5000 ∷ 15000 ∷ 30000 ∷ []

-- Bytes in so many milliseconds, as bytes by the second.
abbrev pub true_rate : (bytes milliseconds : ℕ) → Frac
true_rate bytes milliseconds = (bytes * 1000, milliseconds)

-- Two fractions are one number.
abbrev pub Equals : Frac → Frac → Type 0
Equals (a, b) (c, d) = a * d ≡ c * b

scale_iff : (g i : ℕ) → (g * i ≡ g * 1000 * 5) ↔ ((g ≡ 0) ⊎ (i ≡ 5000))
scale_iff zero i = (λ e. inl refl, λ h. omega arith)
scale_iff (suc g) i = (
  λ e. inr (eq_of_mul-eq-mul_left (suc g) (omega arith) i 5000 (e ∙ omega arith)),
  λ h. elim h [ inl none' ↦ absurd (omega (arith, none')) | inr e ↦ rw e (omega arith) ],
)

-- The rate that is shown is the true one exactly if nothing was gained or the answers are 5 seconds apart.
pub rate_of_iff :
    (new old interval : ℕ)
    → Equals (rate_of new old).gained (true_rate (new - old) interval)
      ↔ ((new - old ≡ 0) ⊎ (interval ≡ 5000))
unfolding rate_of
rate_of_iff new old interval = scale_iff (new - old) interval
