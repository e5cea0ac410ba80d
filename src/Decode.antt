-- ===== src/Decode.antt =====
-- src/wii/decode.c and the frames of src/wii/wii.c: a decode unit becomes a picture in one of two frame
-- buffers, which the frame queue hands to the drawing loop. The decoder of FFmpeg is outside: what
-- `avcodec_decode_video2` makes of a packet is an argument of each call. A frame buffer is its number, as
-- `wii_frame_buffer` takes it; NULL planes are empty blocks.
pub mod Copy
pub mod Packet
pub mod Order
pub mod Screens
pub mod Run
pub mod Setup
pub mod Faults
mod Tests
use moonlight_wii.Prelude.{
  ℕ, zero, suc, ◌+◌, ◌-◌, ◌*◌, ◌/◌, ◌%◌, Bool, true, false, not, ◌||◌, map, Option, none, some,
  List, [], ◌∷◌, if◌then◌else◌, ◌==◌, ltb, leb, min, length, take, set, get_or,
}
use moonlight_wii.Prelude.Int.{ℤ, pos, negsuc}
use moonlight_wii.Prelude.Text.{Bytes}
use moonlight_wii.Prelude.Memory.{write, memcpy, memset}
use moonlight_wii.FrameQueue.{FrameQueue, stream_init, add_frame, get_frame}

abbrev pub num_buffers : ℕ
num_buffers = 2

abbrev pub decoder_buffer_size : ℕ
decoder_buffer_size = 94208

abbrev pub dr_ok : ℤ
dr_ok = pos 0

abbrev pub dr_need_idr : ℤ
dr_need_idr = negsuc 0

-- frame_t
pub record Frame : Type 0 where
  pub y : Bytes
  pub u : Bytes
  pub v : Bytes
  pub width : ℕ
  pub height : ℕ
  pub ystride : ℕ
  pub uvstride : ℕ

abbrev pub blank : Frame
blank = record { y = []; u = []; v = []; width = 0; height = 0; ystride = 0; uvstride = 0 }

-- (n + 7) & ~7
unfoldable pub round_up8 : ℕ → ℕ
round_up8 n = (n + 7) / 8 * 8

-- What a call of `memalign` gives: its number and its size ↦ the block, if there is one.
abbrev pub Allocator : Type 0
Allocator = ℕ → ℕ → Option Bytes

-- One round of `wii_alloc_frames`, and whether it got its three planes.
unfoldable pub with_planes : Option Bytes → Option Bytes → Option Bytes → Frame → Frame × Bool
with_planes (some y) (some u) (some v) f = (record f { y = y; u = u; v = v }, true)
with_planes _ _ _ f = (record f { y = []; u = []; v = [] }, false)

unfoldable pub alloc_frame : Allocator → ℕ → ℕ → ℕ → Frame → Frame × Bool
unfolding with_planes round_up8
alloc_frame memalign i width height fb =
    let ystride = round_up8 width in
    let uvstride = round_up8 (width / 2) in
    with_planes (memalign (3 * i) (ystride * height))
      (memalign (3 * i + 1) (uvstride * (height / 2)))
      (memalign (3 * i + 2) (uvstride * (height / 2)))
      (record fb { width = width; height = height; ystride = ystride; uvstride = uvstride })

-- The rounds left, on the frames from the i-th on; -1 where a plane is missing.
unfoldable pub wii_alloc_frames : Allocator → ℕ → ℕ → ℕ → List Frame → List Frame × Bool
unfolding alloc_frame
wii_alloc_frames memalign width height i [] = ([], true)
wii_alloc_frames memalign width height i (fb ∷ fbs) =
    let (fb', done) = alloc_frame memalign i width height fb in
    let (fbs', whole) = wii_alloc_frames memalign width height (i + 1) fbs in
    if done then (fb' ∷ fbs', whole) else (fb' ∷ fbs, false)

-- What of an `AVFrame` is read.
pub record Picture : Type 0 where
  pub width : ℕ
  pub height : ℕ
  pub plane0 : Bytes
  pub plane1 : Bytes
  pub plane2 : Bytes
  pub linesize0 : ℕ
  pub linesize1 : ℕ
  pub linesize2 : ℕ

-- One round of a copying loop: `w` bytes of the i-th line, and the rest of its stride filled up.
unfoldable pub copy_line : ℕ → ℕ → ℕ → ℕ → Bytes → ℕ → Bytes → Bytes
unfolding memcpy memset
copy_line pad stride linesize w src i plane =
    memset (memcpy plane (i * stride) src (i * linesize) w) (i * stride + w) pad (stride - w)

-- The loop over the Y plane: the rounds left, from the i-th line on.
unfoldable pub copy_lines : ℕ → ℕ → ℕ → ℕ → Bytes → ℕ → ℕ → Bytes → Bytes
unfolding copy_line
copy_lines pad stride linesize w src zero i plane = plane
copy_lines pad stride linesize w src (suc n) i plane =
    copy_lines pad stride linesize w src n (i + 1) (copy_line pad stride linesize w src i plane)

-- The loop over the U and V planes.
unfoldable pub copy_chroma : Picture → ℕ → ℕ → ℕ → Frame → Frame
unfolding copy_line
copy_chroma p hw zero i fb = fb
copy_chroma p hw (suc n) i fb = copy_chroma p hw n (i + 1) (record fb {
  u = copy_line 128 fb.uvstride p.linesize1 hw p.plane1 i fb.u;
  v = copy_line 128 fb.uvstride p.linesize2 hw p.plane2 i fb.v;
})

unfoldable pub copy_picture : Picture → Frame → Frame
unfolding copy_lines copy_chroma
copy_picture p fb =
    let w = min p.width fb.width in
    let h = min p.height fb.height in
    copy_chroma p (w / 2) (h / 2) 0
      (record fb { y = copy_lines 0 fb.ystride p.linesize0 w p.plane0 h 0 fb.y })

-- The static state of decode.c, and what of wii.c it changes; `ctx` says that it is not NULL.
pub record Video : Type 0 where
  pub ctx : Bool
  pub decodebuffer : Bytes
  pub current_texture : ℕ
  pub frames : List Frame
  pub queue : FrameQueue
  pub next_frame : ℕ

-- The video part of `wii_stream_init`; the planes of an earlier stream are gone.
unfoldable pub without_planes : Frame → Frame
without_planes fb = record fb { y = []; u = []; v = [] }

unfoldable pub video_init : Video → Video
unfolding without_planes
video_init s = record s {
  next_frame = 0;
  queue = stream_init s.queue;
  frames = map without_planes s.frames;
}

unfoldable pub wii_decoder_cleanup : Video → Video
unfolding without_planes
wii_decoder_cleanup s = record s {
  ctx = false;
  frames = map without_planes s.frames;
  decodebuffer = [];
}

-- What the libraries answer: whether there is an H.264 decoder, a context and whether it opens; and the
-- blocks of memory, the last of which is the decode buffer.
pub record Libraries : Type 0 where
  pub finds_decoder : Bool
  pub allocates_context : Bool
  pub opens : Bool
  pub memalign : Allocator

unfoldable pub with_buffers : Option Bytes → List Frame × Bool → Video → Video × ℤ
unfolding wii_decoder_cleanup
with_buffers block (fbs, false) s = (record s { ctx = false; frames = fbs }, negsuc 0)
with_buffers none (fbs, true) s =
    (wii_decoder_cleanup (record s { ctx = true; frames = fbs }), negsuc 0)
with_buffers (some block) (fbs, true) s =
    (record s { ctx = true; frames = fbs; decodebuffer = block; current_texture = 0 }, pos 0)

-- VIDEO_FORMAT_H264 is 1. A decoder that is not found leaves `ctx` as it was.
unfoldable pub wii_decoder_setup : Libraries → ℕ → ℕ → ℕ → Video → Video × ℤ
unfolding with_buffers wii_alloc_frames
wii_decoder_setup libs video_format width height s =
    if not (video_format == 1) || not libs.finds_decoder
    then (s, negsuc 0)
    else if not libs.allocates_context || not libs.opens
    then (record s { ctx = false }, negsuc 0)
    else with_buffers (libs.memalign 6 (decoder_buffer_size + 64))
        (wii_alloc_frames libs.memalign width height 0 s.frames) s

-- DECODE_UNIT: the data of each entry stands for its length, too.
pub record DecodeUnit : Type 0 where
  pub full_length : ℕ
  pub buffer_list : List Bytes

-- avcodec_decode_video2: below zero, no picture yet, or a picture.
pub data Decoded : Type 0 where
  failed : Decoded
  nothing : Decoded
  picture : Picture → Decoded

abbrev pub Codec : Type 0
Codec = Bytes → Decoded

-- The loop over the entries: the buffer and `length`.
unfoldable pub gather : List Bytes → Bytes → ℕ → Bytes × ℕ
gather [] buffer len = (buffer, len)
gather (e ∷ es) buffer len = gather es (write buffer len e) (len + length e)

-- The texture that follows.
unfoldable pub next_texture : ℕ → ℕ
next_texture t = if leb num_buffers (t + 1) then 0 else t + 1

unfoldable pub show_picture : Picture → Video → Video
unfolding copy_picture next_texture
show_picture p s = record s {
  frames =
      set s.frames s.current_texture (copy_picture p (get_or s.frames s.current_texture blank));
  next_frame = (s.next_frame + 1) % 4294967296;
  queue = add_frame s.current_texture s.queue;
  current_texture = next_texture s.current_texture;
}

unfoldable pub take_decoded : Decoded → Video → Video × ℤ
unfolding show_picture
take_decoded failed s = (s, dr_need_idr)
take_decoded nothing s = (s, dr_ok)
take_decoded (picture p) s = (show_picture p s, dr_ok)

unfoldable pub submit_decode_unit : Codec → DecodeUnit → Video → Video × ℤ
unfolding gather take_decoded
submit_decode_unit codec unit s =
    if ltb decoder_buffer_size unit.full_length
    then (s, dr_ok)
    else let (buffer, len) = gather unit.buffer_list s.decodebuffer 0 in
      take_decoded (codec (take len buffer)) (record s { decodebuffer = buffer })

-- A frame buffer, as it is at that moment.
unfoldable pub drawn : Option ℕ → List Frame → Option Frame
drawn none fbs = none
drawn (some i) fbs = some (get_or fbs i blank)

-- The drawing thread beside the decoder: `reading` is `frame` in `wii_stream_draw`, while the call runs.
pub record Screen : Type 0 where
  pub video : Video
  pub reading : Option ℕ

-- frame = get_frame(), behind which the queue is unlocked.
unfoldable pub begin_draw : Screen → Screen
begin_draw v =
    let (out, queue) = get_frame v.video.queue in
    record { video = record v.video { queue = queue }; reading = out }

-- What `gx_video_draw_yuv` finds in the planes where it reads them.
unfoldable pub read_planes : Screen → Option Frame
unfolding drawn
read_planes v = drawn v.reading v.video.frames

-- The call returns.
unfoldable pub end_draw : Screen → Screen
end_draw v = record v { reading = none }

-- What the two threads do: `submit` is a whole call of the decoder, and a call of `wii_stream_draw` takes
-- a frame, reads its planes, at as many moments as it likes, and returns; the decoder comes in between.
pub data Event : Type 0 where
  submit : Codec → DecodeUnit → Event
  take_frame : Event
  read_frame : Event
  leave_frame : Event

-- What is read of the planes, at each moment.
unfoldable pub run_video : Screen → List Event → List (Option Frame)
unfolding submit_decode_unit begin_draw read_planes end_draw
run_video v [] = []
run_video v (submit codec unit ∷ events) =
    run_video (record v { video = (submit_decode_unit codec unit v.video).0 }) events
run_video v (take_frame ∷ events) = run_video (begin_draw v) events
run_video v (read_frame ∷ events) = read_planes v ∷ run_video v events
run_video v (leave_frame ∷ events) = run_video (end_draw v) events
