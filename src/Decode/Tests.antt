-- ===== src/Decode/Tests.antt =====
-- Runs of the decoder and the drawing loop, and the theorems at concrete streams.
use moonlight_wii.Prelude.{
  ℕ, ◌≡◌, refl, ap, ◌∙◌, ◌++◌, true, false, none, some, List, [], ◌∷◌, arith, length, replicate,
  length-replicate,
}
use moonlight_wii.Prelude.Int.{pos}
use moonlight_wii.Prelude.Text.{Bytes}
use moonlight_wii.Prelude.Memory.{write}
use moonlight_wii.Decode.{
  Frame, Picture, Video, Screen, begin_draw, Libraries, DecodeUnit, Codec, failed, picture, Event,
  submit, take_frame, read_frame, leave_frame, blank, round_up8, copy_picture, show_picture,
  take_decoded, submit_decode_unit, run_video, wii_decoder_setup, video_init,
}
use moonlight_wii.Decode.Copy.{IsAllocated, IsWhole, laid_out, image, copy_picture-laid_out}
use moonlight_wii.Decode.Packet.{result, packed, submit_decode_unit-packet}
use moonlight_wii.Decode.Order.{IsReady, waiting, show_picture-IsReady, show_picture-waiting}
use moonlight_wii.Decode.Run.{IsPaced, pictures, run_video-pictures}
use moonlight_wii.Decode.Setup.{IsExact, Starts, wii_decoder_setup-IsReady}
use moonlight_wii.Decode.Screens.{
  idle, IsSound, idle-IsSound, in_use, is_drawing, is_some, begin_draw-IsSound, in_use-begun,
  is_drawing-begun,
}
use moonlight_wii.Decode.Faults.{call, this_call, submit_decode_unit-overrun}

-- A picture of two by two in lines of three bytes, of one grey.
abbrev grey : ℕ → Picture
grey n = record {
  width = 2;
  height = 2;
  plane0 = n ∷ n ∷ 7 ∷ n ∷ n ∷ 7 ∷ [];
  plane1 = n ∷ 7 ∷ [];
  plane2 = n ∷ 7 ∷ [];
  linesize0 = 3;
  linesize1 = 2;
  linesize2 = 2;
}

grey-IsWhole : (n : ℕ) → IsWhole (grey n)
grey-IsWhole n = omega arith

abbrev eights : ℕ → Bytes
eights n = replicate n 9

abbrev buffer : Frame
buffer = record {
  y = eights 16;
  u = eights 8;
  v = eights 8;
  width = 2;
  height = 2;
  ystride = 8;
  uvstride = 8;
}

buffer-IsAllocated : IsAllocated 2 2 buffer
unfolding round_up8
buffer-IsAllocated = record {
  width_is = refl;
  height_is = refl;
  ystride_is = refl;
  uvstride_is = refl;
  y_size = refl;
  u_size = refl;
  v_size = refl;
}

copy_picture-grey : copy_picture (grey 5) buffer ≡ record buffer {
  y = 5 ∷ 5 ∷ 0 ∷ 0 ∷ 0 ∷ 0 ∷ 0 ∷ 0 ∷ 5 ∷ 5 ∷ 0 ∷ 0 ∷ 0 ∷ 0 ∷ 0 ∷ 0 ∷ [];
  u = 5 ∷ 128 ∷ 128 ∷ 128 ∷ 128 ∷ 128 ∷ 128 ∷ 128 ∷ [];
  v = 5 ∷ 128 ∷ 128 ∷ 128 ∷ 128 ∷ 128 ∷ 128 ∷ 128 ∷ [];
}
unfolding copy_picture write
copy_picture-grey = refl

copy_picture-laid_out_example : copy_picture (grey 5) buffer ≡ laid_out (grey 5) buffer
copy_picture-laid_out_example =
    copy_picture-laid_out 2 2 (grey 5) buffer buffer-IsAllocated (grey-IsWhole 5)

-- Libraries that have a decoder and memory.
abbrev willing : Libraries
willing = record {
  finds_decoder = true;
  allocates_context = true;
  opens = true;
  memalign = λ i n. some (replicate n 0);
}

willing-IsExact : IsExact willing.memalign
willing-IsExact i n block e =
    let e' : replicate n 0 ≡ block = cc in rw (← e') (length-replicate {A = ℕ} n 0)

abbrev unstarted : Video
unstarted = record {
  ctx = true;
  decodebuffer = [];
  current_texture = 1;
  frames = blank ∷ blank ∷ [];
  queue = record { messages = replicate 16 0; write_index = 5; read_index = 3 };
  next_frame = 40;
}

set_up : (wii_decoder_setup willing 1 2 2 (video_init unstarted)).1 ≡ pos 0
unfolding wii_decoder_setup video_init
set_up = refl

abbrev started : Video
started = (wii_decoder_setup willing 1 2 2 (video_init unstarted)).0

started-Starts : IsReady 2 2 started × (waiting started ≡ [])
started-Starts = wii_decoder_setup-IsReady willing willing-IsExact 1 2 2 unstarted refl refl set_up

wii_decoder_setup-IsReady_example :
    Starts 2 2 (wii_decoder_setup willing 1 2 2 (video_init unstarted))
wii_decoder_setup-IsReady_example =
    wii_decoder_setup-IsReady willing willing-IsExact 1 2 2 unstarted refl refl set_up

-- One entry each; the decoder makes a picture of a unit at once.
abbrev unit : ℕ → DecodeUnit
unit n = record { full_length = 3; buffer_list = (n ∷ n ∷ []) ∷ (n ∷ []) ∷ [] }

abbrev makes : ℕ → Codec
makes n packet = picture (grey n)

submit_decode_unit-packet_example :
    submit_decode_unit (makes 5) (unit 5) started
    ≡ take_decoded
        (result (makes 5) (unit 5))
        (record started { decodebuffer = packed (unit 5) started.decodebuffer })
submit_decode_unit-packet_example =
    submit_decode_unit-packet (makes 5) (unit 5) started refl started-Starts.0.buffer

-- A picture, a second one while the first is read, a unit that fails, and a third when the second is
-- read.
abbrev events : List Event
events =
    submit (makes 5) (unit 5)
    ∷ take_frame
    ∷ read_frame
    ∷ submit (makes 6) (unit 6)
    ∷ read_frame
    ∷ leave_frame
    ∷ take_frame
    ∷ submit (λ packet. failed) (unit 1)
    ∷ submit (makes 7) (unit 7)
    ∷ read_frame
    ∷ leave_frame
    ∷ take_frame
    ∷ read_frame
    ∷ leave_frame
    ∷ take_frame
    ∷ read_frame
    ∷ []

pictures-events :
    pictures 2 2 false [] events
    ≡ some (image 2 2 (grey 5))
      ∷ some (image 2 2 (grey 5))
      ∷ some (image 2 2 (grey 6))
      ∷ some (image 2 2 (grey 7))
      ∷ none
      ∷ []
pictures-events = refl

paced : (l : List Frame) → l ≡ [] → IsPaced 2 2 false l events
paced l e = rw e (ground arith)

run_video-pictures_example :
    run_video (idle started) events ≡ pictures 2 2 false (in_use (idle started)) events
run_video-pictures_example =
    run_video-pictures 2 2 events (idle started) (idle-IsSound 2 2 started started-Starts.0)
      (paced (in_use (idle started)) started-Starts.1)

-- Two pictures wait.
abbrev one_waits : Video
one_waits = show_picture (grey 5) started

abbrev two_wait : Video
two_wait = show_picture (grey 6) one_waits

one_waits-waiting : waiting one_waits ≡ image 2 2 (grey 5) ∷ []
one_waits-waiting =
    show_picture-waiting 2 2 (grey 5) started started-Starts.0
      (omega (arith, ap length started-Starts.1)) (grey-IsWhole 5) (omega arith) (omega arith)
    ∙ ap (λ l. l ++ image 2 2 (grey 5) ∷ []) started-Starts.1

one_waits-IsReady : IsReady 2 2 one_waits
one_waits-IsReady =
    show_picture-IsReady 2 2 (grey 5) started started-Starts.0
      (omega (arith, ap length started-Starts.1))

two_wait-waiting : waiting two_wait ≡ image 2 2 (grey 5) ∷ image 2 2 (grey 6) ∷ []
two_wait-waiting =
    show_picture-waiting 2 2 (grey 6) one_waits one_waits-IsReady
      (omega (arith, ap length one_waits-waiting)) (grey-IsWhole 6) (omega arith) (omega arith)
    ∙ ap (λ l. l ++ image 2 2 (grey 6) ∷ []) one_waits-waiting

two_wait-IsReady : IsReady 2 2 two_wait
two_wait-IsReady =
    show_picture-IsReady 2 2 (grey 6) one_waits one_waits-IsReady
      (omega (arith, ap length one_waits-waiting))

-- The first of them is being drawn.
abbrev one_drawn : Screen
one_drawn = begin_draw (idle two_wait)

two_wait-IsSound : IsSound 2 2 (idle two_wait)
two_wait-IsSound = idle-IsSound 2 2 two_wait two_wait-IsReady

is_drawing-one_drawn : is_drawing one_drawn.reading ≡ true
is_drawing-one_drawn =
    is_drawing-begun 2 2 (idle two_wait) two_wait-IsSound refl ∙ ap is_some two_wait-waiting

submit_decode_unit-overrun_example :
    run_video one_drawn
      (submit (makes 7) (unit 7) ∷ this_call (is_drawing one_drawn.reading) (call (call [])))
    ≡ some (image 2 2 (grey 7)) ∷ some (image 2 2 (grey 6)) ∷ some (image 2 2 (grey 7)) ∷ []
submit_decode_unit-overrun_example =
    submit_decode_unit-overrun 2 2 (makes 7) (unit 7) (grey 7) one_drawn (image 2 2 (grey 5))
      (image 2 2 (grey 6)) (begin_draw-IsSound 2 2 (idle two_wait) two_wait-IsSound refl)
      (in_use-begun 2 2 (idle two_wait) two_wait-IsSound refl ∙ two_wait-waiting) refl refl
      (grey-IsWhole 7) (omega arith) (omega arith)
