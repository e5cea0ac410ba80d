-- ===== src/Input.antt =====
-- src/wii/input.c: the home button.
pub mod Presses
pub mod Controller
pub mod Updates
mod Tests
use moonlight_wii.Prelude.{
  ℕ, ◌+◌, ◌-◌, ◌*◌, ◌%◌, ◌^◌, Bool, true, false, not, ◌&&◌, List, [], ◌∷◌, ltb, if◌then◌else◌,
}

-- HOME_NONE, HOME_BACK and HOME_QUIT
pub data Action : Type 0 where
  nothing back quit : Action

-- `homeDownMicros`, `homeHeld` and `homeLongFired`
pub record Home : Type 0 where
  pub down_micros : ℕ
  pub held : Bool
  pub long_fired : Bool

abbrev pub home_hold_micros : ℕ
home_hold_micros = 3 * 1000 * 1000

-- micros_now() - homeDownMicros > HOME_HOLD_MICROS, of numbers below 2^64
unfoldable pub held_long : ℕ → ℕ → Bool
held_long down now = ltb home_hold_micros ((now + 2 ^ 64 - down) % 2 ^ 64)

-- Whether the button is down, and the time of the poll.
unfoldable pub home_poll : Bool → ℕ → Home → Action × Home
unfolding held_long
home_poll down now h =
    if down
    then if not h.held
      then (nothing, record { down_micros = now; held = true; long_fired = false })
      else if not h.long_fired && held_long h.down_micros now
      then (quit, record h { long_fired = true })
      else (nothing, h)
    else (
      if h.held && not h.long_fired then back else nothing,
      record h { held = false; long_fired = false },
    )

abbrev pub keep : Action → List Action → List Action
keep nothing rest = rest
keep back rest = back ∷ rest
keep quit rest = quit ∷ rest

-- What a sequence of polls asks for.
unfoldable pub polls : List (Bool × ℕ) → Home → List Action
unfolding home_poll
polls [] h = []
polls ((down, now) ∷ rest) h = let r = home_poll down now h in keep r.0 (polls rest r.1)
