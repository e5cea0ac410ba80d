-- ===== src/Flip/Tests.antt =====
-- A progressive and an interlaced screen.
use moonlight_wii.Prelude.{ℕ, ◌≡◌, refl, true, false, [], ◌∷◌, arith}
use moonlight_wii.Flip.{
  Screen, idle, filled, ready, Machine, fills, paces, presents, finishes, retraces, Reach, here,
  next, fill, pace_step, present_step, done_step, retrace_step,
}
use moonlight_wii.Flip.Order.{IsSafe, Reach-IsSafe, retrace_step_shows, interlaced_lost}

-- The frame 1 is on the screen; the mode is progressive or interlaced.
abbrev showing : ℕ → Screen
showing mode = record {
  whichfb = true;
  flip_pending = false;
  sync_interlace = mode;
  delayrender_frames = 4;
  presented = true;
  black = false;
  first = 1;
  second = 0;
  shown = false;
  copying = false;
}

abbrev start : Machine
start = record { screen = showing 0; place = idle; log = 1 ∷ []; seen = 1 ∷ [] }

start-IsSafe : IsSafe start
start-IsSafe = ground arith

-- The frame 2 is drawn and finished, and waits; then the thread fills the textures for another one.
abbrev second_done : Machine
second_done = done_step (present_step 2 (pace_step (fill start)))

second_done-Reach : Reach start second_done
unfolding fill pace_step present_step
second_done-Reach =
    next (next (next (next here (fills refl (λ e. refl))) (paces refl)) (presents 2 refl))
      (finishes refl)

Reach-IsSafe_example : IsSafe second_done
Reach-IsSafe_example = Reach-IsSafe start-IsSafe second_done-Reach

second_done-IsSafe : IsSafe second_done
second_done-IsSafe = Reach-IsSafe start-IsSafe second_done-Reach

waits_now : second_done.screen.flip_pending ≡ true
unfolding done_step
waits_now = refl

abbrev next_ready : Machine
next_ready = retrace_step false (pace_step (fill second_done))

next_ready-Reach : Reach start next_ready
unfolding fill pace_step present_step done_step
next_ready-Reach =
    next (next (next second_done-Reach (fills refl (λ e. refl))) (paces refl)) (retraces false)

ready_now : next_ready.place ≡ ready
unfolding fill pace_step present_step done_step retrace_step
ready_now = refl

retrace_step_shows_example : (retrace_step true second_done).seen ≡ second_done.log
retrace_step_shows_example = retrace_step_shows second_done second_done-IsSafe waits_now true

abbrev late_frame : Machine
late_frame = record {
  screen = record (showing 1) { flip_pending = true; second = 2 };
  place = filled;
  log = 2 ∷ 1 ∷ [];
  seen = 1 ∷ [];
}

interlaced_lost_example :
    let late = retrace_step true (pace_step late_frame) in
    (late.place ≡ ready)
    × (late.screen.flip_pending ≡ true)
    × (late.seen ≡ late_frame.seen)
    × ((retrace_step false (done_step (present_step 3 late))).seen ≡ 3 ∷ late_frame.seen)
interlaced_lost_example = interlaced_lost late_frame 3 refl (omega arith) refl refl
