-- ===== src/Flip/Order.antt =====
-- On a progressive display, once the screen is on: no frame is lost, and none is drawn where it can be seen.
use moonlight_wii.Prelude.{ℕ, ◌≤◌, ◌≡◌, Bool, true, false, not, ◌||◌, ◌∷◌, if◌then◌else◌, arith}
use moonlight_wii.Flip.{
  Screen, Place, idle, filled, waiting, ready, Machine, Step, fills, paces, presents, finishes,
  retraces, Reach, here, next, delayrender_max, buffer_at, fill, pace_step, present_step, done_step,
  retrace_step,
}

-- While the thread is past `GX_WaitDrawDone`, the GPU is not copying; when it is about to draw, no frame
-- waits to be shown.
abbrev pub At : Place → Screen → Type 0
At idle s = s.copying ≡ true → s.flip_pending ≡ false
At filled s = s.copying ≡ false
At waiting s = s.copying ≡ false
At ready s = (s.copying ≡ false) × (s.flip_pending ≡ false)

-- A frame that is on its way to the screen.
abbrev pub under_way : Screen → Bool
under_way s = s.copying || s.flip_pending

pub record IsSafe (m : Machine) : Type 0 where
  pub progressive : m.screen.sync_interlace ≡ 0
  pub started : delayrender_max ≤ m.screen.delayrender_frames
  pub back : m.screen.shown ≡ not m.screen.whichfb
  pub first_frame : m.screen.presented ≡ false → m.screen.copying ≡ false
  pub at : At m.place m.screen
  pub order :
      m.log ≡ (if under_way m.screen then buffer_at m.screen.whichfb m.screen ∷ m.seen else m.seen)

module _ (m : Machine) (s : IsSafe m) where
  fill-IsSafe :
      m.place ≡ idle → (m.screen.presented ≡ true → m.screen.copying ≡ false) → IsSafe (fill m)
  unfolding fill
  fill-IsSafe p w = ground arith

  pace_step-IsSafe : m.place ≡ filled → IsSafe (pace_step m)
  unfolding pace_step
  pace_step-IsSafe p = ground arith

  present_step-IsSafe : (frame : ℕ) → m.place ≡ ready → IsSafe (present_step frame m)
  unfolding present_step
  present_step-IsSafe frame p = ground arith

  done_step-IsSafe : m.screen.copying ≡ true → IsSafe (done_step m)
  unfolding done_step
  done_step-IsSafe c = ground arith

  retrace_step-IsSafe : (field : Bool) → IsSafe (retrace_step field m)
  unfolding retrace_step
  retrace_step-IsSafe field = ground arith

Step-IsSafe : {m n : Machine} → Step m n → IsSafe m → IsSafe n
Step-IsSafe {m} (fills p w) s = fill-IsSafe m s p w
Step-IsSafe {m} (paces p) s = pace_step-IsSafe m s p
Step-IsSafe {m} (presents frame p) s = present_step-IsSafe m s frame p
Step-IsSafe {m} (finishes c) s = done_step-IsSafe m s c
Step-IsSafe {m} (retraces field) s = retrace_step-IsSafe m s field

-- Progressive, and once the screen is on and a first frame is shown: whatever the order of the thread's
-- steps, the GPU and the retraces, the frames shown are the frames presented, each once and in order, all
-- of them but at most the last one, which is then still copied or waits; and the buffer that is written
-- is not the one on the screen.
pub Reach-IsSafe : {m n : Machine} → IsSafe m → Reach m n → IsSafe n
Reach-IsSafe s here = s
Reach-IsSafe s (next r st) = Step-IsSafe st (Reach-IsSafe s r)

-- Where the thread is about to draw, no frame waits, nothing is being copied, and the buffer that it will
-- write is not on the screen.
pub Reach-ready :
    {m n : Machine}
    → IsSafe m
    → Reach m n
    → n.place ≡ ready
    → (n.screen.flip_pending ≡ false)
      × (n.screen.copying ≡ false)
      × (n.screen.shown ≡ not n.screen.whichfb)
      × (n.log ≡ n.seen)
Reach-ready {m} {n} s r p = let safe = Reach-IsSafe s r in ground arith

-- A finished frame is shown by the next retrace, whatever its field.
pub retrace_step_shows :
    (m : Machine)
    → IsSafe m
    → m.screen.flip_pending ≡ true
    → (field : Bool) → (retrace_step field m).seen ≡ m.log
unfolding retrace_step
retrace_step_shows m s h field = ground arith

-- On an interlaced display the one retrace that the thread waits for may be of the field on which nothing
-- is shown: then the frame that waits is still there when the thread draws the next one over it, and
-- the retraces after that show the next one in its place.
pub interlaced_lost :
    (m : Machine) (frame : ℕ)
    → m.screen.sync_interlace ≡ 1
    → delayrender_max ≤ m.screen.delayrender_frames
    → m.screen.flip_pending ≡ true
    → m.place ≡ filled
    → let late = retrace_step true (pace_step m) in
      (late.place ≡ ready)
      × (late.screen.flip_pending ≡ true)
      × (late.seen ≡ m.seen)
      × ((retrace_step false (done_step (present_step frame late))).seen ≡ frame ∷ m.seen)
unfolding retrace_step pace_step done_step present_step
interlaced_lost m frame h d p q = ground arith
