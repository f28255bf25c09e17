-- ===== src/Access/Display.antt =====
-- How the remote display is scaled to the window: the desktop page, and the monitor
-- (web/src/components/session/GuacdMonitor.js).
use next_terminal.Base.{
  ℕ, ◌*◌, ◌≤◌, ◌<◌, ◌≡◌, true, false, Option, none, some, [], ◌∷◌, ◌++◌, min, leb, leb→le,
  le_of_not_leb, ◌==◌, ◌||◌, Bool-cases, inl, inr, if◌then◌else◌, arith,
}
use mathlib.Core.Path.{subst}
use next_terminal.Base.Text.{Text, codes}
use next_terminal.Access.Desktop.{Guacd, scale, send_size, on_window_resize}

-- `Math.min(winWidth / width, winHeight / height)` as a fraction, where the sides are positive.
unfoldable pub smaller : (win_width win_height width height : ℕ) → ℕ × ℕ
smaller win_width win_height width height =
    if leb (win_width * height) (win_height * width)
    then (win_width, width)
    else (win_height, height)

-- `onWindowResize` of the monitor: `none` where the scale is 0 or not a number, or where the
-- display has no size, which leaves the display as it is.
unfoldable pub monitor_scale : (win_width win_height width height : ℕ) → Option (ℕ × ℕ)
monitor_scale win_width win_height width height =
    if (width == 0 || height == 0) || (win_width == 0 || win_height == 0)
    then none
    else some (smaller win_width win_height width height)

-- The tip that the monitor shows in a state of the client; `none` leaves it.
unfoldable pub monitor_tip : ℕ → Option Text
monitor_tip state =
    if state == 0
    then some (codes "正在初始化中...")
    else if state == 1
    then some (codes "正在努力连接中...")
    else if state == 2
    then some (codes "正在等待服务器响应...")
    else if state == 3
    then some []
    else if state == 4
    then some (codes "会话关闭中...")
    else if state == 5
    then some (codes "会话已关闭")
    else none

smaller-fits :
    (win_width win_height width height : ℕ)
    → (width * (smaller win_width win_height width height).0
        ≤ win_width * (smaller win_width win_height width height).1)
      × (height * (smaller win_width win_height width height).0
          ≤ win_height * (smaller win_width win_height width height).1)
unfolding smaller
smaller-fits win_width win_height width height =
    elim (Bool-cases (leb (win_width * height) (win_height * width))) [
      | inl le ↦ rw le (omega arith, omega (arith, leb→le _ _ le))
      | inr gt ↦ rw gt (omega (arith, le_of_not_leb _ _ gt), omega arith)
    ]

-- Where the monitor scales its display, the scaled display fits into the window on both sides.
pub monitor_scale-fits :
    (win_width win_height width height num den : ℕ)
    → monitor_scale win_width win_height width height ≡ some (num, den)
    → (width * num ≤ win_width * den) × (height * num ≤ win_height * den)
unfolding monitor_scale
monitor_scale-fits win_width win_height width height num den h =
    let e : smaller win_width win_height width height ≡ (num, den) = ground arith in
    subst (λ p. (width * p.0 ≤ win_width * p.1) × (height * p.0 ≤ win_height * p.1)) e
      (smaller-fits win_width win_height width height)

-- The desktop page takes the display's height for both sides: with a client of no fixed size, where
-- the display is wider than high and the window is no wider than high, the scaled display is wider
-- than the window.
pub on_window_resize-overflows :
    (width height display_width display_height : ℕ) (g : Guacd)
    → 0 < width
    → width ≤ height
    → display_height < display_width
    → g.client ≡ true
    → g.fixed_size ≡ false
    → ((on_window_resize width height display_width display_height g).calls
        ≡ g.calls ++ (scale (min height width) display_height ∷ send_size width height ∷ []))
      × (width * display_height < display_width * min height width)
unfolding on_window_resize
on_window_resize-overflows width height display_width display_height g p le wide c f =
    let side : min height width ≡ width = omega arith in (simp (c, f), rw side (grind arith))
