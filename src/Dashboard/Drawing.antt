-- ===== src/Dashboard/Drawing.antt =====
-- What the monitor draws (web/src/components/dashboard/Monitoring.js): its four gauges with their numbers,
-- and its curves. `none` is an exception.
use next_terminal.Base.{ℕ, ◌*◌, Option, none, some, List, [], ◌∷◌, ◌++◌}
use next_terminal.Base.Text.{Text, codes, decimal}
use next_terminal.Dashboard.Monitor.{
  Frac, Io, Ps, Memory, render_load, load_color, usage_color, mem_color, cpu_model_name,
}

-- A number with two digits behind the point, a size in bytes, or a text.
pub data Figure : Type 0 where
  fixed : Frac → (suffix : Text) → Figure
  sized : Option ℕ → Figure
  said : Text → Figure

-- A card with its gauge.
pub record Gauge : Type 0 where
  pub title : Text
  pub value : Figure
  pub description : List (Text × Figure)
  pub percent : Frac
  pub color : Text

-- The two curves of each chart of throughput have names.
pub record Drawing : Type 0 where
  pub gauges : List Gauge
  pub net_io : List Io
  pub disk_io : List Io
  pub aliases : List (Text × Text)
  pub cpu_stat : List (Text × Frac)
  pub mem_stat : List (Text × Frac)

abbrev hundredth : Frac → Frac
hundredth (n, d) = (n, d * 100)

abbrev written : Option ℕ → Text
written none = codes "undefined"
written (some n) = decimal n

abbrev percents : Frac → Figure
percents x = fixed x (codes "%")

abbrev load_gauge : Ps → Gauge
load_gauge ps = record {
  title = codes "负载";
  value = said (render_load ps.load_stat.percent);
  description =
      (codes "Load1", fixed ps.load_stat.load1 [])
      ∷ (codes "Load5", fixed ps.load_stat.load5 [])
      ∷ (codes "Load15", fixed ps.load_stat.load15 [])
      ∷ [];
  percent = ps.load_stat.percent;
  color = load_color ps.load_stat.percent;
}

abbrev cpu_gauge : Text → Ps → Gauge
cpu_gauge name ps = record {
  title = codes "CPU";
  value = said (decimal ps.cpu.count ++ codes "个");
  description =
      (codes "利用率", percents ps.cpu.used_percent)
      ∷ (codes "物理核数", said (written ps.cpu.phy_count ++ codes " 个"))
      ∷ (codes "型号", said (cpu_model_name name))
      ∷ [];
  percent = hundredth ps.cpu.used_percent;
  color = usage_color (hundredth ps.cpu.used_percent);
}

abbrev room_gauge : (title available : Text) → (Frac → Text) → Memory → Gauge
room_gauge title available color room = record {
  title = title;
  value = sized (some room.total);
  description =
      (codes "利用率", percents room.used_percent)
      ∷ (available, sized (some room.available))
      ∷ (codes "已使用", sized room.used)
      ∷ [];
  percent = hundredth room.used_percent;
  color = color (hundredth room.used_percent);
}

abbrev drawn_for : Text → Ps → Drawing
drawn_for name ps = record {
  gauges =
      load_gauge ps
      ∷ cpu_gauge name ps
      ∷ room_gauge (codes "内存") (codes "可用的") mem_color ps.mem
      ∷ room_gauge (codes "硬盘") (codes "剩余的") usage_color ps.disk
      ∷ [];
  net_io = ps.net_io;
  disk_io = ps.disk_io;
  aliases = (codes "接收（MB/s）", codes "发送（MB/s）") ∷ (codes "读取（MB/s）", codes "写入（MB/s）") ∷ [];
  cpu_stat = ps.cpu_stat;
  mem_stat = ps.mem_stat;
}

-- The first processor's name is read; an object without fields has no load.
unfoldable pub monitoring : Option Ps → Option Drawing
unfolding render_load load_color usage_color mem_color cpu_model_name
monitoring none = none
monitoring (some ps) = elim ps.cpu.info [ [] ↦ none | name ∷ names ↦ some (drawn_for name ps) ]
