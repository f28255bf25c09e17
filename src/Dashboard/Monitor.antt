-- ===== src/Dashboard/Monitor.antt =====
-- The monitor (web/src/components/dashboard/Monitoring.js) on top of its call (web/src/api/monitor.js). A
-- number that need not be whole is a fraction; how `toFixed` and `renderSize` write one is left open.
use next_terminal.Base.{
  ℕ, ◌*◌, Bool, Option, none, some, List, [], ◌∷◌, ◌++◌, map, length, take, ltb, leb, if◌then◌else◌,
}
use next_terminal.Base.Text.{Text, codes}
use next_terminal.Request.Verbs.{Answer, Sent, get}
use next_terminal.Request.Api.{Async, await, data_if, returns, throws, waits}

-- A numerator and a denominator above 0.
abbrev pub Frac : Type 0
Frac = ℕ × ℕ

-- What is read and written by a time.
pub record Io : Type 0 where
  pub time : Text
  pub read : Frac
  pub write : Frac

pub record Load : Type 0 where
  pub load1 : Frac
  pub load5 : Frac
  pub load15 : Frac
  pub percent : Frac

-- `used` and `phy_count` are not there before the first answer.
pub record Memory : Type 0 where
  pub total : ℕ
  pub available : ℕ
  pub used : Option ℕ
  pub used_percent : Frac

pub record Cpu : Type 0 where
  pub count : ℕ
  pub phy_count : Option ℕ
  pub used_percent : Frac
  pub info : List Text

-- What the server says of itself; the processors are given by the names of their models.
pub record Ps : Type 0 where
  pub load_stat : Load
  pub mem : Memory
  pub cpu : Cpu
  pub disk : Memory
  pub disk_io : List Io
  pub net_io : List Io
  pub cpu_stat : List (Text × Frac)
  pub mem_stat : List (Text × Frac)

abbrev unused : Memory
unused = record { total = 0; available = 0; used = none; used_percent = (0, 1) }

-- `initData`
unfoldable pub init_data : Ps
init_data = record {
  load_stat = record { load1 = (0, 1); load5 = (0, 1); load15 = (0, 1); percent = (0, 1) };
  mem = unused;
  cpu = record { count = 0; phy_count = none; used_percent = (0, 1); info = [] ∷ [] };
  disk = unused;
  disk_io = [];
  net_io = [];
  cpu_stat = [];
  mem_stat = [];
}

abbrev divided : ℕ → Frac → Frac
divided k (n, d) = (n, d * k)

-- Bytes by 1024 and again by 1024 and again by 1024.
abbrev scaled : Frac → Frac
scaled x = divided 1024 (divided 1024 (divided 1024 x))

unfoldable pub scaled_io : Io → Io
scaled_io io = record io { read = scaled io.read; write = scaled io.write }

unfoldable pub scaled_ps : Ps → Ps
unfolding scaled_io
scaled_ps ps = record ps { net_io = map scaled_io ps.net_io; disk_io = map scaled_io ps.disk_io }

abbrev scaled_if : Option Ps → Option Ps
scaled_if none = none
scaled_if (some ps) = some (scaled_ps ps)

-- `none` is an object without fields, for any code but 1.
unfoldable pub get_data {ℓ} : {P : Type ℓ} → (Sent P → Answer Ps) → Text → Async (Option Ps)
unfolding scaled_ps
get_data axios token = await (get axios token (codes "/overview/ps")).1 (λ b. scaled_if (data_if b))

-- `useQuery`: the data that the page is drawn with, which a call that fails leaves as it was.
unfoldable pub queried_data : Async (Option Ps) → Option Ps → Option Ps
queried_data (returns data') old = data'
queried_data (throws e) old = old
queried_data waits old = old

-- Whether a fraction is above, or at least, so many hundredths.
abbrev pub above : Frac → ℕ → Bool
above (n, d) k = ltb (k * d) (n * 100)

abbrev pub at_least : Frac → ℕ → Bool
at_least (n, d) k = leb (k * d) (n * 100)

unfoldable pub render_load : Frac → Text
render_load percent =
    if at_least percent 90
    then codes "堵塞"
    else if at_least percent 80
    then codes "缓慢"
    else if at_least percent 70
    then codes "正常"
    else codes "流畅"

abbrev pub blue : Text
blue = codes "#5B8FF9"

abbrev pub red : Text
red = codes "#F4664A"

unfoldable pub load_color : Frac → Text
load_color percent =
    if above percent 90
    then red
    else if above percent 80
    then codes "#001D70"
    else if above percent 70
    then codes "#0047A5"
    else blue

-- The colours of the processors and of the disk.
unfoldable pub usage_color : Frac → Text
usage_color percent =
    if above percent 90 then red else if above percent 80 then codes "#001D70" else blue

unfoldable pub mem_color : Frac → Text
mem_color percent = if above percent 75 then red else blue

-- The name of a model, cut after ten characters.
unfoldable pub cpu_model_name : Text → Text
cpu_model_name name = if ltb 10 (length name) then take 10 name ++ codes "..." else name
