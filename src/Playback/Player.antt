-- ===== src/Playback/Player.antt =====
-- The player (web/src/components/session/GuacdPlayback.js): the recording, its slider and its speed.
use next_terminal.Base.{
  ℕ, suc, ◌+◌, ◌-◌, ◌/◌, Bool, true, false, Option, none, some, List, [], ◌∷◌, ◌++◌, if◌then◌else◌,
  ◌==◌, leb,
}
use next_terminal.Base.Text.{Text}
use next_terminal.Utils.Times.{format_time}

-- What the page uses of `Guacamole.SessionRecording`.
pub record Recorder {ℓ} (R : Type ℓ) : Type ℓ where
  pub is_playing : R → Bool
  pub get_duration : R → ℕ
  pub get_position : R → ℕ
  pub seek : R → ℕ → R
  pub play : R → R
  pub pause : R → R

-- What is called once a seek is done: the replay from the start, or the timeout of the next round.
pub data Callback : Type 0 where
  replays : Callback
  schedules : (delay : ℕ) → Callback

-- The state of the page, with the speed in quarters: 4 stands for 1.0, and 5 for 1.25. `timers` are
-- the timeouts that run, by their handles and with their delays; `timer` is the variable of the
-- rendering whose handlers run, which every rendering makes anew. `seeks` are the callbacks of the
-- seeks that are asked for, which come later.
pub record Player {ℓ} (R : Type ℓ) : Type ℓ where
  pub recording : R
  pub speed : ℕ
  pub percent : ℕ
  pub max : ℕ
  pub position : Text
  pub duration : Text
  pub shows_pause : Bool
  pub waiting : Bool
  pub timer : Option ℕ
  pub timers : List (ℕ × ℕ)
  pub next_timer : ℕ
  pub seeks : List Callback
  pub paused : ℕ

unfoldable pub mount {ℓ} : {R : Type ℓ} → (zero_time : Text) → R → Player R
mount zero_time r = record {
  recording = r;
  speed = 4;
  percent = 0;
  max = 0;
  position = zero_time;
  duration = zero_time;
  shows_pause = false;
  waiting = true;
  timer = none;
  timers = [];
  next_timer = 1;
  seeks = [];
  paused = 0;
}

abbrev without : ℕ → List (ℕ × ℕ) → List (ℕ × ℕ)
without t [] = []
without t ((s, delay) ∷ timers) =
    let rest = without t timers in if s == t then rest else (s, delay) ∷ rest

-- The delay of a round: 100 / (speed - 1), of which a timeout takes the whole milliseconds.
unfoldable pub delay_of : ℕ → ℕ
delay_of speed = 400 / (speed - 4)

module _ {ℓ} {R : Type ℓ} where
  unfoldable pub rendered : Player R → Player R
  rendered player = record player { timer = none }

  unfoldable pub stop_speed_up : Player R → Player R
  stop_speed_up player = elim player.timer [
    | none ↦ player
    | some t ↦ record player { timers = without t player.timers }
  ]

  -- The callbacks of the recording, after each of which the page is rendered anew.
  unfoldable pub on_seek : ℕ → Player R → Player R
  unfolding rendered
  on_seek millis player =
      rendered (record player { percent = millis; position = format_time millis })

  unfoldable pub on_progress : ℕ → Player R → Player R
  unfolding rendered
  on_progress millis player =
      rendered (record player { max = millis; duration = format_time millis })

  unfoldable pub on_play : Player R → Player R
  unfolding rendered
  on_play player = rendered (record player { shows_pause = true })

  unfoldable pub on_pause : Player R → Player R
  unfolding rendered
  on_pause player = rendered (record player { shows_pause = false })

  module _ (api : Recorder R) where
    -- Whether `startSpeedUp` seeks.
    unfoldable pub speeds : ℕ → R → Bool
    speeds speed r =
        if speed == 4
        then false
        else if api.is_playing r
        then if leb (api.get_duration r) (api.get_position r) then false else true
        else false

    abbrev scheduled : ℕ → Player R → Player R
    scheduled delay player = record player {
      timer = some player.next_timer;
      timers = player.timers ++ (player.next_timer, delay) ∷ [];
      next_timer = suc player.next_timer;
    }

    unfoldable pub start_speed_up : Player R → Player R
    unfolding stop_speed_up speeds delay_of
    start_speed_up player =
        let stopped = stop_speed_up player in
        if speeds stopped.speed stopped.recording
        then record stopped {
          recording = api.seek stopped.recording (api.get_position stopped.recording + 100);
          seeks = stopped.seeks ++ schedules (delay_of stopped.speed) ∷ [];
        }
        else stopped

    abbrev play_on : Player R → Player R
    play_on player = start_speed_up (record player { recording = api.play player.recording })

    -- `message.info('暂停')`
    abbrev told_paused : Player R → Player R
    told_paused player = record player { paused = suc player.paused }

    unfoldable pub handle_play_pause : Player R → Player R
    unfolding start_speed_up stop_speed_up
    handle_play_pause player =
        let replayed =
          if player.percent == player.max
          then record player {
            percent = 0;
            recording = api.seek player.recording 0;
            seeks = player.seeks ++ replays ∷ [];
          }
          else player in
        if api.is_playing replayed.recording
        then told_paused
            (stop_speed_up (record replayed { recording = api.pause replayed.recording }))
        else play_on replayed

    -- The callback of a seek that is done, by the handlers of its rendering.
    unfoldable pub called_back : Callback → Player R → Player R
    unfolding start_speed_up
    called_back replays player = play_on player
    called_back (schedules delay) player = scheduled delay player

    unfoldable pub handle_progress_change : ℕ → Player R → Player R
    handle_progress_change value player = record player {
      recording = api.seek player.recording value;
    }

    -- A choice of a speed: the handlers still see the speed of their rendering.
    unfoldable pub select_speed : ℕ → Player R → Player R
    unfolding rendered start_speed_up stop_speed_up
    select_speed value player =
        let done = if value == 4 then stop_speed_up player else start_speed_up player in
        rendered (record done { speed = value })

    unfoldable pub click_to_play : Player R → Player R
    unfolding rendered handle_play_pause
    click_to_play player = rendered (record (handle_play_pause player) { waiting = false })
