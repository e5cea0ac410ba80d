-- ===== src/Input/Presses.antt =====
-- src/wii/input.c: what one press of the home button leads to.
use moonlight_wii.Prelude.{
  ℕ, ◌≡◌, refl, ap, Bool, true, false, ◌||◌, List, [], ◌∷◌, if◌then◌else◌, Bool-cases, inl, inr,
}
use moonlight_wii.Input.{back, quit, Home, held_long, home_poll, polls}

-- The button is down at each of the times, and then up.
abbrev pub holding : List ℕ → ℕ → List (Bool × ℕ) → List (Bool × ℕ)
holding [] up rest = (false, up) ∷ rest
holding (now ∷ times) up rest = (true, now) ∷ holding times up rest

-- Whether one of the polls comes more than three seconds after the press.
abbrev pub any_long : ℕ → List ℕ → Bool
any_long down [] = false
any_long down (now ∷ times) = held_long down now || any_long down times

abbrev state : ℕ → Bool → Bool → Home
state down held fired = record { down_micros = down; held = held; long_fired = fired }

-- A press that has asked to quit asks for nothing else.
polls-fired :
    (down : ℕ) (times : List ℕ) (up : ℕ) (rest : List (Bool × ℕ))
    → polls (holding times up rest) (state down true true) ≡ polls rest (state down false false)
unfolding polls home_poll
polls-fired down [] up rest = refl
polls-fired down (now ∷ times) up rest = polls-fired down times up rest

polls-held :
    (down : ℕ) (times : List ℕ) (up : ℕ) (rest : List (Bool × ℕ))
    → polls (holding times up rest) (state down true false)
      ≡ (if any_long down times then quit else back) ∷ polls rest (state down false false)
unfolding polls home_poll
polls-held down [] up rest = refl
polls-held down (now ∷ times) up rest = elim (Bool-cases (held_long down now)) [
  | inl e ↦ rw (polls, home_poll, e) (ap (λ l. quit ∷ l) (polls-fired down times up rest))
  | inr e ↦ rw (polls, home_poll, e) (polls-held down times up rest)
]

-- From the press to the release of the home button, however often it is polled in between, there is one
-- action: quit where a poll finds it held for more than three seconds, and back where none does.
pub polls-press :
    (last down : ℕ) (times : List ℕ) (up : ℕ) (rest : List (Bool × ℕ))
    → polls (holding (down ∷ times) up rest) (state last false false)
      ≡ (if any_long down times then quit else back) ∷ polls rest (state down false false)
unfolding polls home_poll
polls-press last down times up rest = polls-held down times up rest
