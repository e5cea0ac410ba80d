-- ===== src/Flip.antt =====
-- src/wii/gx_video.c: the two external frame buffers, and who may use them when: the drawing thread
-- (`gx_video_draw_yuv`, `gx_video_present`), the GPU that copies a frame and then calls `draw_done_cb`, and
-- the retrace interrupt (`vblank_cb`), which hands a finished frame to the video interface. A frame is a
-- number. What is drawn, and the textures, are not modelled.
pub mod Order
mod Tests
use moonlight_wii.Prelude.{
  ℕ, zero, suc, ◌+◌, ◌-◌, ◌≡◌, ◌≢◌, Bool, true, false, not, ◌&&◌, ◌||◌, Option, none, some, List,
  [], ◌∷◌, if◌then◌else◌, ltb, ◌==◌,
}

abbrev pub delayrender_max : ℕ
delayrender_max = 4

-- The static state. `first` and `second` are what the buffers hold, `shown` is the buffer that the video
-- interface shows, `copying` says that the GPU still copies into the buffer `whichfb`.
pub record Screen : Type 0 where
  pub whichfb : Bool
  pub flip_pending : Bool
  pub sync_interlace : ℕ
  pub delayrender_frames : ℕ
  pub presented : Bool
  pub black : Bool
  pub first : ℕ
  pub second : ℕ
  pub shown : Bool
  pub copying : Bool

-- What is on the screen; the buffers are false and true.
abbrev pub buffer_at : Bool → Screen → ℕ
buffer_at b s = if b then s.second else s.first

abbrev pub write_buffer : Bool → ℕ → Screen → Screen
write_buffer true frame s = record s { second = frame }
write_buffer false frame s = record s { first = frame }

-- (sync_interlace == 1) ? !f : (sync_interlace == 2) ? f : 1, with the field as a Boolean.
unfoldable pub doflip : ℕ → Bool → Bool
doflip mode field = if mode == 1 then not field else if mode == 2 then field else true

unfoldable pub vblank_cb : Bool → Screen → Screen
unfolding doflip
vblank_cb field s =
    if ltb s.delayrender_frames delayrender_max
    then record s {
      delayrender_frames = s.delayrender_frames + 1;
      black = if s.delayrender_frames + 1 == delayrender_max then false else s.black;
    }
    else if not s.flip_pending || not (doflip s.sync_interlace field)
    then s
    else record s { shown = s.whichfb; whichfb = not s.whichfb; flip_pending = false }

unfoldable pub draw_done_cb : Screen → Screen
draw_done_cb s = record s { flip_pending = true; copying = false }

unfoldable pub gx_video_present : ℕ → Screen → Screen
gx_video_present frame s = record (write_buffer s.whichfb frame s) {
  copying = true;
  presented = true;
}

-- Where the drawing thread stands in `gx_video_draw_yuv`: before it, with the textures filled, in
-- `VIDEO_WaitVSync`, or before the drawing.
pub data Place : Type 0 where
  idle : Place
  filled : Place
  waiting : Place
  ready : Place

-- `log` are the frames that were presented, `seen` those that were shown, the last one first.
pub record Machine : Type 0 where
  pub screen : Screen
  pub place : Place
  pub log : List ℕ
  pub seen : List ℕ

-- if (flip_pending) VIDEO_WaitVSync();
unfoldable pub pace : Screen → Place
pace s = if s.flip_pending then waiting else ready

-- `VIDEO_WaitVSync` returns at a retrace.
unfoldable pub resume : Place → Place
resume idle = idle
resume filled = filled
resume waiting = ready
resume ready = ready

-- Whether a retrace shows another buffer.
unfoldable pub flips : Bool → Screen → Bool
unfolding doflip
flips field s =
    not (ltb s.delayrender_frames delayrender_max)
    && s.flip_pending
    && doflip s.sync_interlace field

unfoldable pub fill : Machine → Machine
fill m = record m { place = filled }

unfoldable pub pace_step : Machine → Machine
unfolding pace
pace_step m = record m { place = pace m.screen }

unfoldable pub present_step : ℕ → Machine → Machine
unfolding gx_video_present
present_step frame m = record m {
  screen = gx_video_present frame m.screen;
  place = idle;
  log = frame ∷ m.log;
}

unfoldable pub done_step : Machine → Machine
unfolding draw_done_cb
done_step m = record m { screen = draw_done_cb m.screen }

unfoldable pub retrace_step : Bool → Machine → Machine
unfolding vblank_cb resume flips
retrace_step field m = record m {
  screen = vblank_cb field m.screen;
  place = resume m.place;
  seen = if flips field m.screen then buffer_at m.screen.whichfb m.screen ∷ m.seen else m.seen;
}

-- The steps of the thread, the GPU and the interrupt, each when it can be. The textures are filled when
-- `GX_WaitDrawDone` has returned, which is not called before the first frame.
pub data Step (m : Machine) : Machine → Type 0 where
  fills : m.place ≡ idle → (m.screen.presented ≡ true → m.screen.copying ≡ false) → Step m (fill m)
  paces : m.place ≡ filled → Step m (pace_step m)
  presents : (frame : ℕ) → m.place ≡ ready → Step m (present_step frame m)
  finishes : m.screen.copying ≡ true → Step m (done_step m)
  retraces : (field : Bool) → Step m (retrace_step field m)

pub data Reach (m : Machine) : Machine → Type 0 where
  here : Reach m m
  next : {k n : Machine} → Reach m k → Step k n → Reach m n
