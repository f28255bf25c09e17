-- ===== src/Tests/PlaybackRuns.antt =====
-- A recording of 350 milliseconds that plays (web/src/components/session/GuacdPlayback.js).
use next_terminal.Base.{ℕ, ◌≡◌, refl, true, none}
use next_terminal.Base.Text.{codes}
use next_terminal.Playback.Player.{Recorder, Player, mount, select_speed}
use next_terminal.Playback.SpeedUp.{select_speed-stale}

-- The recording by its position.
abbrev recorder : Recorder ℕ
recorder = record {
  is_playing = λ r. true;
  get_duration = λ r. 350;
  get_position = λ r. r;
  seek = λ r n. n;
  play = λ r. r;
  pause = λ r. r;
}

abbrev player : Player ℕ
player = mount (codes "00:00") 20

select_speed-stale_example :
    select_speed recorder 8 player ≡ record player { speed = 8; timer = none }
unfolding mount
select_speed-stale_example = select_speed-stale recorder 8 player refl refl
