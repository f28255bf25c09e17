-- ===== src/Dashboard/Overview.antt =====
-- The overview (web/src/components/dashboard/Dashboard.js). The numbers are what the server counts.
use next_terminal.Base.{ℕ, some, List, [], ◌∷◌, ◌++◌, if◌then◌else◌}
use next_terminal.Base.Text.{Text, codes, text_eq, decimal}
use next_terminal.Request.Handlers.{code_is}
use next_terminal.Request.Verbs.{Answer, Sent, Promise, resolved, get}

pub record Counter : Type 0 where
  pub online_user : ℕ
  pub total_user : ℕ
  pub active_asset : ℕ
  pub total_asset : ℕ
  pub fail_login_count : ℕ
  pub offline_session : ℕ

pub record AssetCount : Type 0 where
  pub ssh : ℕ
  pub rdp : ℕ
  pub vnc : ℕ
  pub telnet : ℕ
  pub kubernetes : ℕ

-- A point of the chart of the sessions.
pub record DateCount : Type 0 where
  pub date : Text
  pub type : Text
  pub value : ℕ

pub record Dashboard : Type 0 where
  pub counter : Counter
  pub asset : AssetCount
  pub date_counter : List DateCount

unfoldable pub initial_dashboard : Dashboard
initial_dashboard = record {
  counter = record {
    online_user = 0;
    total_user = 0;
    active_asset = 0;
    total_asset = 0;
    fail_login_count = 0;
    offline_session = 0;
  };
  asset = record { ssh = 0; rdp = 0; vnc = 0; telnet = 0; kubernetes = 0 };
  date_counter = [];
}

-- The data of an answer with the code 1, or what there was.
abbrev data_of {ℓ} : {A : Type ℓ} → A → Promise A → A
data_of old (resolved (some b)) = if code_is b.code 1 then b.data' else old
data_of old _ = old

-- Each handler gives the state once its request has settled; a failure leaves it as it was.
module _ {ℓ} {P : Type ℓ} (token : Text) where
  unfoldable pub get_counter : (Sent P → Answer Counter) → Dashboard → Dashboard
  get_counter axios page = record page {
    counter = data_of page.counter (get axios token (codes "/overview/counter")).1;
  }

  unfoldable pub get_date_counter :
      (Sent P → Answer (List DateCount)) → Text → Dashboard → Dashboard
  get_date_counter axios d page = record page {
    date_counter =
        data_of page.date_counter (get axios token (codes "/overview/date-counter?d=" ++ d)).1;
  }

  unfoldable pub get_asset : (Sent P → Answer AssetCount) → Dashboard → Dashboard
  get_asset axios page = record page {
    asset = data_of page.asset (get axios token (codes "/overview/asset")).1;
  }

  unfoldable pub handle_change_date_counter :
      (Sent P → Answer (List DateCount)) → Text → Dashboard → Dashboard
  unfolding get_date_counter
  handle_change_date_counter axios value page =
      get_date_counter axios (if text_eq value (codes "按周") then codes "week" else codes "month")
        page

  unfoldable pub overview_did_mount :
      (Sent P → Answer Counter)
      → (Sent P → Answer AssetCount)
      → (Sent P → Answer (List DateCount))
      → Dashboard
      → Dashboard
  unfolding get_counter get_asset get_date_counter
  overview_did_mount counts assets dates page =
      get_date_counter dates (codes "week") (get_asset assets (get_counter counts page))

-- The cards, by their titles.
unfoldable pub overview_cards : Counter → List (Text × Text)
overview_cards c =
    (codes "在线用户", decimal c.online_user ++ (codes "/" ++ decimal c.total_user))
    ∷ (codes "运行中资产", decimal c.active_asset ++ (codes "/" ++ decimal c.total_asset))
    ∷ (codes "登录失败次数", decimal c.fail_login_count)
    ∷ (codes "历史会话总数", decimal c.offline_session)
    ∷ []

-- The sectors of the chart of the assets.
unfoldable pub asset_data : AssetCount → List (Text × ℕ)
asset_data a =
    (codes "RDP", a.rdp)
    ∷ (codes "SSH", a.ssh)
    ∷ (codes "TELNET", a.telnet)
    ∷ (codes "VNC", a.vnc)
    ∷ (codes "Kubernetes", a.kubernetes)
    ∷ []
