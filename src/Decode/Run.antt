-- ===== src/Decode/Run.antt =====
-- Whole streams: decode units and the calls of `wii_stream_draw` in any order that leaves at most one frame
-- in use, read or waiting, before each picture.
use moonlight_wii.Prelude.{
  ℕ, ◌≤◌, ◌≡◌, refl, ap, ap₂, ◌∙◌, Bool, false, Option, none, some, List, [], ◌∷◌, ◌++◌, arith,
  length, drop, length-append, length-drop, ltb, Bool-cases, inl, inr,
}
use moonlight_wii.Prelude.Text.{Bytes}
use moonlight_wii.Prelude.Memory.{join}
use moonlight_wii.Decode.{
  Frame, Screen, DecodeUnit, Decoded, failed, nothing, picture, Event, submit, take_frame,
  read_frame, leave_frame, decoder_buffer_size, take_decoded, submit_decode_unit, begin_draw,
  end_draw, run_video,
}
use moonlight_wii.Decode.Copy.{IsWhole, image}
use moonlight_wii.Decode.Packet.{result, packed, submit_decode_unit-packet}
use moonlight_wii.Decode.Screens.{
  IsSound, in_use, is_drawing, is_some, read_of, left_of, with_picture-IsSound, in_use-shown,
  begin_draw-IsSound, in_use-begun, is_drawing-begun, end_draw-IsSound, read_planes_lem,
  in_use-ended,
}

packed-le : (unit : DecodeUnit) (buffer : Bytes) → length buffer ≤ length (packed unit buffer)
packed-le unit buffer = elim (Bool-cases (ltb decoder_buffer_size unit.full_length)) [
  | inl e ↦ rw e (omega arith)
  | inr e ↦
      let packet = join unit.buffer_list in
      rw e (
        omega (
          arith,
          length-append packet (drop (length packet) buffer),
          length-drop (length packet) buffer,
        ))
]

not_drawing : (r : Option ℕ) → is_drawing r ≡ false → r ≡ none
not_drawing none h = refl
not_drawing (some i) h = cc

module _ (width height : ℕ) where
  -- The specification: the frames in use.
  abbrev pub shown : Decoded → List Frame → List Frame
  shown (picture p) l = l ++ image width height p ∷ []
  shown failed l = l
  shown nothing l = l

  -- A picture comes while at most one frame is in use, is whole, and is as large as the stream.
  abbrev pub Accepts : Decoded → List Frame → Type 0
  Accepts (picture p) l = (length l ≤ 1) × IsWhole p × (width ≤ p.width) × (height ≤ p.height)
  Accepts failed l = Unit
  Accepts nothing l = Unit

  -- Each unit has the length that it says, and a call of `wii_stream_draw` begins when none runs. The
  -- Boolean says whether a frame is being read, the first of those in use.
  abbrev pub IsPaced : Bool → List Frame → List Event → Type 0
  IsPaced busy l [] = Unit
  IsPaced busy l (submit codec unit ∷ events) =
      (unit.full_length ≡ length (join unit.buffer_list))
      × Accepts (result codec unit) l
      × IsPaced busy (shown (result codec unit) l) events
  IsPaced busy l (take_frame ∷ events) = (busy ≡ false) × IsPaced (is_some l) l events
  IsPaced busy l (read_frame ∷ events) = IsPaced busy l events
  IsPaced busy l (leave_frame ∷ events) = IsPaced false (left_of busy l) events

  abbrev pub pictures : Bool → List Frame → List Event → List (Option Frame)
  pictures busy l [] = []
  pictures busy l (submit codec unit ∷ events) = pictures busy (shown (result codec unit) l) events
  pictures busy l (take_frame ∷ events) = pictures (is_some l) l events
  pictures busy l (read_frame ∷ events) = read_of busy l ∷ pictures busy l events
  pictures busy l (leave_frame ∷ events) = pictures false (left_of busy l) events

  abbrev pub with_packet : Screen → DecodeUnit → Screen
  with_packet v unit = record v {
    video = record v.video { decodebuffer = packed unit v.video.decodebuffer };
  }

  pub with_packet-IsSound :
      (v : Screen) (unit : DecodeUnit)
      → IsSound width height v
      → IsSound width height (with_packet v unit)
  with_packet-IsSound v unit r = record {
    texture = r.texture;
    two = r.two;
    first = r.first;
    second = r.second;
    queue = r.queue;
    buffer = omega (arith, packed-le unit v.video.decodebuffer);
    pending = r.pending;
  }

  abbrev after_decoded : Decoded → Screen → Screen
  after_decoded d v = record v { video = (take_decoded d v.video).0 }

  decoded-IsSound :
      (d : Decoded) (v : Screen)
      → IsSound width height v
      → Accepts d (in_use v)
      → IsSound width height (after_decoded d v)
  unfolding take_decoded
  decoded-IsSound (picture p) v r a = with_picture-IsSound width height p v r a.0
  decoded-IsSound failed v r a = r
  decoded-IsSound nothing v r a = r

  in_use-decoded :
      (d : Decoded) (v : Screen)
      → IsSound width height v
      → Accepts d (in_use v)
      → in_use (after_decoded d v) ≡ shown d (in_use v)
  unfolding take_decoded
  in_use-decoded (picture p) v r a = in_use-shown width height p v r a.0 a.1 a.2 a.3
  in_use-decoded failed v r a = refl
  in_use-decoded nothing v r a = refl

  -- What `wii_stream_draw` reads of a stream are its pictures, each call one, in the order in which they
  -- were decoded, whenever and however often it looks at the planes until it returns, and also if another
  -- picture was decoded since it took its frame; it reads nothing where none waited. That is if the units
  -- have the lengths they say, and each picture is whole, as large as the stream, and decoded while at most
  -- one frame is in use, the one that is being read counted with those that wait.
  pub run_video-pictures :
      (events : List Event) (v : Screen)
      → IsSound width height v
      → IsPaced (is_drawing v.reading) (in_use v) events
      → run_video v events ≡ pictures (is_drawing v.reading) (in_use v) events
  unfolding run_video
  run_video-pictures [] v r h = refl
  run_video-pictures (submit codec unit ∷ events) v r h =
      let d = result codec unit in
      let v' = with_packet v unit in
      let sound : IsSound width height v' = with_packet-IsSound v unit r in
      let uses : in_use (after_decoded d v') ≡ shown d (in_use v) = in_use-decoded d v' sound h.1 in
      let first : run_video (record v { video = (submit_decode_unit codec unit v.video).0 }) events
          ≡ run_video (after_decoded d v') events =
        ap (λ o. run_video (record v { video = o.0 }) events)
          (submit_decode_unit-packet codec unit v.video h.0 r.buffer) in
      first
      ∙ run_video-pictures events (after_decoded d v') (decoded-IsSound d v' sound h.1)
          (rw uses h.2)
      ∙ ap (λ l. pictures (is_drawing v.reading) l events) uses
  run_video-pictures (take_frame ∷ events) v r h =
      let idle = not_drawing v.reading h.0 in
      let uses = in_use-begun width height v r idle in
      let busy = is_drawing-begun width height v r idle in
      run_video-pictures events (begin_draw v) (begin_draw-IsSound width height v r idle)
        (rw busy (rw uses h.1))
      ∙ ap₂ (λ b l. pictures b l events) busy uses
  run_video-pictures (read_frame ∷ events) v r h =
      ap₂ ◌∷◌ (read_planes_lem v) (run_video-pictures events v r h)
  run_video-pictures (leave_frame ∷ events) v r h =
      let uses = in_use-ended v in
      run_video-pictures events (end_draw v) (end_draw-IsSound width height v r)
        (unfold end_draw in rw uses h)
      ∙ (unfold end_draw in ap (λ l. pictures false l events) uses)
