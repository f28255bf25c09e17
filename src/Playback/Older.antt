-- ===== src/Playback/Older.antt =====
-- The older player of a recording (web/src/components/session/Playback.js). The timeout of its speed is a
-- variable of the module.
use next_terminal.Base.{
  ℕ, suc, ◌+◌, ◌-◌, ◌/◌, Bool, false, not, Option, none, some, List, [], ◌∷◌, ◌++◌, if◌then◌else◌,
  ◌==◌, leb,
}
use next_terminal.Base.Text.{Text}
use next_terminal.Utils.Times.{format_time}
use next_terminal.Playback.Player.{Recorder}

-- What is called later: once the state is set, the seek to the start; once that is done, the replay; once
-- a seek of the speed is done, the timeout of the next round.
pub data Later : Type 0 where
  rewinds replays : Later
  times : (delay : ℕ) → Later

-- `timers` are the timeouts that run, by their handles and with their delays.
pub record Playback {ℓ} (R : Type ℓ) : Type ℓ where
  pub recording : Option R
  pub percent : ℕ
  pub max : ℕ
  pub speed : ℕ
  pub position : Option Text
  pub duration : Option Text
  pub shows_pause : Bool
  pub timer : Option ℕ
  pub timers : List (ℕ × ℕ)
  pub next_timer : ℕ
  pub callbacks : List Later

unfoldable pub initial_playback {ℓ} : {R : Type ℓ} → Playback R
initial_playback = record {
  recording = none;
  percent = 0;
  max = 0;
  speed = 1;
  position = none;
  duration = none;
  shows_pause = false;
  timer = none;
  timers = [];
  next_timer = 1;
  callbacks = [];
}

abbrev cleared : ℕ → List (ℕ × ℕ) → List (ℕ × ℕ)
cleared t [] = []
cleared t ((s, delay) ∷ timers) =
    let rest = cleared t timers in if s == t then rest else (s, delay) ∷ rest

module _ {ℓ} {R : Type ℓ} (api : Recorder R) where
  unfoldable pub stop_speeding : Playback R → Playback R
  stop_speeding p = elim p.timer [ none ↦ p | some t ↦ record p { timers = cleared t p.timers } ]

  abbrev call_later : Later → Playback R → Playback R
  call_later later p = record p { callbacks = p.callbacks ++ later ∷ [] }

  abbrev sought : R → ℕ → Later → Playback R → Playback R
  sought r value later p = call_later later (record p { recording = some (api.seek r value) })

  -- The rounds of a recording, if the speed is not 1 and the recording plays and is not at its end.
  unfoldable pub speed_up : R → Playback R → Playback R
  unfolding stop_speeding
  speed_up r p =
      if p.speed == 1
      then p
      else if not (api.is_playing r)
      then p
      else if leb (api.get_duration r) (api.get_position r)
      then stop_speeding p
      else sought r (api.get_position r + 100) (times (100 / (p.speed - 1))) p

  abbrev play_from : R → Playback R → Playback R
  play_from r p = speed_up (api.play r) (record p { recording = some (api.play r) })

  unfoldable pub play_pause : Playback R → Playback R
  unfolding speed_up stop_speeding
  play_pause p = elim p.recording [
    | none ↦ p
    | some r ↦
        let replayed =
          if p.percent == p.max then call_later rewinds (record p { percent = 0 }) else p in
        if not (api.is_playing r)
        then play_from r replayed
        else stop_speeding (record replayed { recording = some (api.pause r) })
  ]

  -- The recording is there, and the button is taken three times.
  unfoldable pub init_player : R → Playback R → Playback R
  unfolding play_pause
  init_player r p = play_pause (play_pause (play_pause (record p { recording = some r })))

  -- A callback, and a timeout that has come, of a recording.
  unfoldable pub run_later : R → Later → Playback R → Playback R
  unfolding speed_up
  run_later r rewinds p = sought r 0 replays p
  run_later r replays p = play_from r p
  run_later r (times delay) p = record p {
    timer = some p.next_timer;
    timers = p.timers ++ (p.next_timer, delay) ∷ [];
    next_timer = suc p.next_timer;
  }

  unfoldable pub timed_out : R → ℕ → Playback R → Playback R
  unfolding speed_up
  timed_out r t p = speed_up r (record p { timers = cleared t p.timers })

  unfoldable pub progress_change : ℕ → Playback R → Playback R
  progress_change value p = elim p.recording [
    | none ↦ p
    | some r ↦ record p { recording = some (api.seek r value) }
  ]

  -- The state is set after the handler, which still sees the speed that was chosen before.
  unfoldable pub choose_speed : R → ℕ → Playback R → Playback R
  unfolding speed_up stop_speeding
  choose_speed r value p = record (if value == 1 then stop_speeding p else speed_up r p) {
    speed = value;
  }

module _ {ℓ} {R : Type ℓ} where
  -- `recording.onplay` and `onpause`
  unfoldable pub shown_playing : Bool → Playback R → Playback R
  shown_playing playing p = record p { shows_pause = playing }

  unfoldable pub seek_shown : ℕ → Playback R → Playback R
  seek_shown millis p = record p { percent = millis; position = some (format_time millis) }

  unfoldable pub progress_shown : ℕ → Playback R → Playback R
  progress_shown millis p = record p { max = millis; duration = some (format_time millis) }

-- The scale of the display as a fraction, of a width other than 0.
unfoldable pub display_resized : (offset_width width : ℕ) → Option (ℕ × ℕ)
display_resized offset_width width = if width == 0 then none else some (offset_width, width)
