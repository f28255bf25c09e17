-- ===== src/Playback/SpeedUp.antt =====
-- The choice of a speed of the playback (web/src/components/session/GuacdPlayback.js).
use next_terminal.Base.{ℕ, ◌≡◌, refl, none, ◌==◌, Bool-cases, inl, inr}
use next_terminal.Playback.Player.{
  Recorder, Player, speeds, start_speed_up, select_speed, stop_speed_up, rendered,
}

module _ {ℓ} {R : Type ℓ} (api : Recorder R) where
  stop_speed_up-none : (player : Player R) → player.timer ≡ none → stop_speed_up player ≡ player
  unfolding stop_speed_up
  stop_speed_up-none player t = rw t refl

  start_speed_up-normal :
      (player : Player R)
      → player.speed ≡ 4
      → player.timer ≡ none
      → start_speed_up api player ≡ player
  unfolding start_speed_up speeds
  start_speed_up-normal player e t = rw (stop_speed_up-none player t, e) refl

  -- On a player at the normal speed and without a timer of its rendering, the choice of any speed
  -- does nothing but store the speed: the faster playback does not begin.
  pub select_speed-stale :
      (value : ℕ) (player : Player R)
      → player.speed ≡ 4
      → player.timer ≡ none
      → select_speed api value player ≡ record player { speed = value; timer = none }
  unfolding select_speed rendered
  select_speed-stale value player e t = elim (Bool-cases (value == 4)) [
    | inl same ↦ rw (same, stop_speed_up-none player t) refl
    | inr other ↦ rw (other, start_speed_up-normal player e t) refl
  ]
