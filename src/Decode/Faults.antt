-- ===== src/Decode/Faults.antt =====
-- The queue holds 16 frames but there are two frame buffers: a picture that is decoded while two frames
-- are in use, waiting or being drawn, goes into the buffer of the older one.
use moonlight_wii.Prelude.{
  ℕ, ◌-◌, ◌≤◌, ◌<◌, ◌≡◌, refl, ap, ap₂, sym, Bool, true, false, Option, none, ◌∙◌, some, List, [],
  ◌∷◌, map, arith, length, set, get_or, inl, inr,
}
use moonlight_wii.Prelude.Memory.{join}
use moonlight_wii.Circular.{get_or-set_self, get_or-set_ne}
use moonlight_wii.FrameQueue.{get_frame}
use moonlight_wii.FrameQueue.Inv
use moonlight_wii.FrameQueue.Inv.{add_frame-IsValid, get_frame-IsValid}
use moonlight_wii.FrameQueue.Refine.{contents, fifo_add, get_frame_refines}
use moonlight_wii.Decode.{
  Frame, Picture, Video, Screen, Codec, DecodeUnit, picture, blank, copy_picture, show_picture,
  take_decoded, submit_decode_unit, Event, submit, take_frame, read_frame, leave_frame, drawn,
  begin_draw, read_planes, end_draw, run_video,
}
use moonlight_wii.Decode.Copy.{IsWhole, image, copy_picture-image}
use moonlight_wii.Decode.Packet.{result, submit_decode_unit-packet}
use moonlight_wii.Decode.Screens.{
  idle, IsSound, in_use, is_drawing, buffers, length-in_use, buffers-shown, with_picture,
}
use moonlight_wii.Decode.Run.{with_packet, with_packet-IsSound}
use moonlight_wii.Decode.Order.{Pending, waiting, pop, drawn_popped, IsAllocated-at}

-- Where two frames are in use, the older one is in the buffer that comes next.
both-Pending : (t : ℕ) (l : List ℕ) → Pending t l → length l ≡ 2 → l ≡ t ∷ (1 - t) ∷ []
both-Pending t l (inl e) h = absurd (omega (arith, ap length e))
both-Pending t l (inr (inl e)) h = absurd (omega (arith, ap length e))
both-Pending t l (inr (inr e)) h = e

overwritten :
    (fbs : List Frame) (t : ℕ) (fb a b : Frame) (l : List ℕ)
    → t < 2
    → length fbs ≡ 2
    → l ≡ t ∷ (1 - t) ∷ []
    → map (λ i. get_or fbs i blank) l ≡ a ∷ b ∷ []
    → map (λ i. get_or (set fbs t fb) i blank) (fifo_add t l) ≡ fb ∷ b ∷ fb ∷ []
overwritten fbs t fb a b l ht hl e w =
    let w' : get_or fbs t blank ∷ get_or fbs (1 - t) blank ∷ [] ≡ a ∷ b ∷ [] = rw e at w in
    let other : get_or fbs (1 - t) blank ≡ b = cc in
    let new : get_or (set fbs t fb) t blank ≡ fb = get_or-set_self fbs t fb blank (omega arith) in
    let kept : get_or (set fbs t fb) (1 - t) blank ≡ b =
      get_or-set_ne fbs t (1 - t) fb blank (omega arith) ∙ other in
    rw e (rw new (rw kept refl))

-- One call of `wii_stream_draw`, not interrupted, and what follows.
abbrev pub call : List Event → List Event
call events = take_frame ∷ read_frame ∷ leave_frame ∷ events

abbrev popped : Video → Video
popped s = record s { queue = (get_frame s.queue).1 }

popped_lem :
    (s : Video)
    → Inv.IsValid s.queue
    → (drawn (get_frame s.queue).0 s.frames, waiting (popped s)) ≡ pop (waiting s)
popped_lem s v =
    drawn_popped s.frames (get_frame s.queue).0 (contents s.queue) (contents (get_frame s.queue).1)
      (get_frame_refines s.queue v)

run_call :
    (s : Video) (events : List Event)
    → run_video (idle s) (call events)
      ≡ drawn (get_frame s.queue).0 s.frames ∷ run_video (idle (popped s)) events
unfolding run_video begin_draw read_planes end_draw
run_call s events = refl

one_call :
    (s : Video) (a : Frame) (l : List Frame) (events : List Event)
    → Inv.IsValid s.queue
    → waiting s ≡ a ∷ l
    → (run_video (idle s) (call events) ≡ some a ∷ run_video (idle (popped s)) events)
      × (waiting (popped s) ≡ l)
      × Inv.IsValid (popped s).queue
one_call s a l events v w =
    let e = popped_lem s v ∙ ap pop w in
    (
      run_call s events ∙ ap (λ r. r.0 ∷ run_video (idle (popped s)) events) e,
      ap (λ r. r.1) e,
      get_frame-IsValid v,
    )

two_calls :
    (s : Video) (b c : Frame)
    → Inv.IsValid s.queue
    → waiting s ≡ b ∷ c ∷ []
    → run_video (idle s) (call (call [])) ≡ some b ∷ some c ∷ []
two_calls s b c v w =
    let (run1, w1, v1) = one_call s b (c ∷ []) (call []) v w in
    let (run2, w2, v2) = one_call (popped s) c [] [] v1 w1 in
    run1 ∙ ap (λ l. some b ∷ l) (run2 ∙ ap (λ l. some c ∷ l) (unfold run_video in refl))

-- The rest of the call that runs, where one does, and else a whole one; and what follows.
abbrev pub this_call : Bool → List Event → List Event
this_call true events = read_frame ∷ leave_frame ∷ events
this_call false events = call events

run_rest :
    (s : Video) (i : ℕ) (events : List Event)
    → run_video (record { video = s; reading = some i }) (this_call true events)
      ≡ some (get_or s.frames i blank) ∷ run_video (idle s) events
unfolding run_video read_planes end_draw drawn
run_rest s i events = refl

finish_calls :
    (s : Video) (r : Option ℕ) (a b c : Frame)
    → Inv.IsValid s.queue
    → in_use (record { video = s; reading = r }) ≡ a ∷ b ∷ c ∷ []
    → run_video (record { video = s; reading = r }) (this_call (is_drawing r) (call (call [])))
      ≡ some a ∷ some b ∷ some c ∷ []
finish_calls s none a b c v w =
    let (run1, w1, v1) = one_call s a (b ∷ c ∷ []) (call (call [])) v w in
    run1 ∙ ap (λ l. some a ∷ l) (two_calls (popped s) b c v1 w1)
finish_calls s (some i) a b c v w =
    run_rest s i (call (call []))
    ∙ ap₂ ◌∷◌ (ap (λ l. (pop l).0) w) (two_calls s b c v (ap (λ l. (pop l).1) w))

module _ (width height : ℕ) where
  with_picture-overrun :
      (p : Picture) (v : Screen) (a b : Frame)
      → IsSound width height v
      → in_use v ≡ a ∷ b ∷ []
      → IsWhole p
      → width ≤ p.width
      → height ≤ p.height
      → in_use (with_picture p v) ≡ image width height p ∷ b ∷ image width height p ∷ []
  unfolding show_picture
  with_picture-overrun p v a b r w c hw hh =
      let t = v.video.current_texture in
      let fbs = v.video.frames in
      let fb = get_or fbs t blank in
      let two : length (buffers v) ≡ 2 = sym (length-in_use v) ∙ ap length w in
      let new : copy_picture p fb ≡ image width height p =
        copy_picture-image width height p fb
          (IsAllocated-at width height fbs t r.texture r.first r.second) c hw hh in
      ap (map (λ i. get_or (set fbs t (copy_picture p fb)) i blank))
        (buffers-shown width height p v r (omega (arith, ap length w)))
      ∙ overwritten fbs t (copy_picture p fb) a b (buffers v) r.texture r.two
          (both-Pending t (buffers v) r.pending two) w
      ∙ ap (λ f. f ∷ b ∷ f ∷ []) new

  abbrev submitted : Codec → DecodeUnit → Screen → Screen
  submitted codec unit v = record v { video = (submit_decode_unit codec unit v.video).0 }

  submitted-overrun :
      (codec : Codec) (unit : DecodeUnit) (p : Picture) (v : Screen) (a b : Frame)
      → IsSound width height v
      → in_use v ≡ a ∷ b ∷ []
      → unit.full_length ≡ length (join unit.buffer_list)
      → result codec unit ≡ picture p
      → IsWhole p
      → width ≤ p.width
      → height ≤ p.height
      → (in_use (submitted codec unit v) ≡ image width height p ∷ b ∷ image width height p ∷ [])
        × Inv.IsValid (submitted codec unit v).video.queue
  unfolding take_decoded
  submitted-overrun codec unit p v a b r w hl e c hw hh =
      rw (submit_decode_unit-packet codec unit v.video hl r.buffer) (
        rw e (
          with_picture-overrun p (with_packet width height v unit) a b
              (with_packet-IsSound width height v unit r) w c hw hh,
          unfold show_picture in add_frame-IsValid v.video.current_texture r.queue,
        ))

  -- A picture that is decoded while two frames are in use, both waiting or the older one being drawn,
  -- replaces the older one. If no other picture is decoded before three calls of `wii_stream_draw` have read
  -- their planes and returned, the one that is running counted, these read the new picture, also where the
  -- first of them had taken the older frame, then the second frame, then the new picture again: from then on
  -- the older frame is not drawn, and a later picture comes before an earlier one.
  pub submit_decode_unit-overrun :
      (codec : Codec) (unit : DecodeUnit) (p : Picture) (v : Screen) (a b : Frame)
      → IsSound width height v
      → in_use v ≡ a ∷ b ∷ []
      → unit.full_length ≡ length (join unit.buffer_list)
      → result codec unit ≡ picture p
      → IsWhole p
      → width ≤ p.width
      → height ≤ p.height
      → run_video v (submit codec unit ∷ this_call (is_drawing v.reading) (call (call [])))
        ≡ some (image width height p) ∷ some b ∷ some (image width height p) ∷ []
  unfolding run_video
  submit_decode_unit-overrun codec unit p v a b r w hl e c hw hh =
      let (left, valid) = submitted-overrun codec unit p v a b r w hl e c hw hh in
      finish_calls (submit_decode_unit codec unit v.video).0 v.reading _ _ _ valid left
