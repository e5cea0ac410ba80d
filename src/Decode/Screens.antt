-- ===== src/Decode/Screens.antt =====
-- src/wii/wii.c: the frames in use, the one that `wii_stream_draw` reads and those that wait behind it.
-- With at most one in use before each picture, the decoder writes into none of them.
use moonlight_wii.Prelude.{
  ℕ, ◌≤◌, ◌<◌, ◌≡◌, refl, ap, sym, ◌∙◌, Bool, true, false, Option, none, some, List, [], ◌∷◌, ◌++◌,
  map, arith, length, set, get_or, length-set, length-map,
}
use moonlight_wii.FrameQueue.{get_frame}
use moonlight_wii.FrameQueue.Inv
use moonlight_wii.FrameQueue.Inv.{add_frame-IsValid, get_frame-IsValid}
use moonlight_wii.FrameQueue.Refine.{
  contents, fifo_add, fifo_get, add_frame_refines, get_frame_refines,
}
use moonlight_wii.Decode.{
  Frame, Picture, Video, Screen, blank, decoder_buffer_size, copy_picture, show_picture, begin_draw,
  read_planes, end_draw, drawn,
}
use moonlight_wii.Decode.Copy.{
  IsAllocated, IsWhole, image, copy_picture-image, copy_picture-IsAllocated,
}
use moonlight_wii.Decode.Order.{
  IsReady, Pending, IsAllocated-at, set-IsAllocated, Pending-added, waiting_added, Pending-popped,
  next_texture-lt,
}

abbrev pub held : Option ℕ → List ℕ
held none = []
held (some i) = i ∷ []

-- The buffers in use, and the frames in them as they are now: the one that is read comes first.
abbrev pub buffers : Screen → List ℕ
buffers v = held v.reading ++ contents v.video.queue

abbrev pub in_use : Screen → List Frame
in_use v = map (λ i. get_or v.video.frames i blank) (buffers v)

abbrev pub is_drawing : Option ℕ → Bool
is_drawing none = false
is_drawing (some i) = true

pub record IsSound (width height : ℕ) (v : Screen) : Type 0 where
  pub texture : v.video.current_texture < 2
  pub two : length v.video.frames ≡ 2
  pub first : IsAllocated width height (get_or v.video.frames 0 blank)
  pub second : IsAllocated width height (get_or v.video.frames 1 blank)
  pub queue : Inv.IsValid v.video.queue
  pub buffer : decoder_buffer_size ≤ length v.video.decodebuffer
  pub pending : Pending v.video.current_texture (buffers v)

-- No call of `wii_stream_draw` runs.
abbrev pub idle : Video → Screen
idle s = record { video = s; reading = none }

pub idle-IsSound :
    (width height : ℕ) (s : Video) → IsReady width height s → IsSound width height (idle s)
idle-IsSound width height s r = record {
  texture = r.texture;
  two = r.two;
  first = r.first;
  second = r.second;
  queue = r.queue;
  buffer = r.buffer;
  pending = r.pending;
}

held-fifo_add :
    (r : Option ℕ) (t : ℕ) (l : List ℕ)
    → length (held r ++ l) ≤ 2
    → held r ++ fifo_add t l ≡ fifo_add t (held r ++ l)
held-fifo_add none t l h = refl
held-fifo_add (some i) t [] h = refl
held-fifo_add (some i) t (x ∷ []) h = refl
held-fifo_add (some i) t (x ∷ y ∷ l) h = absurd (omega arith)

held-got : (out : Option ℕ) (l l' : List ℕ) → (out, l') ≡ fifo_get l → held out ++ l' ≡ l
held-got out [] l' e = ap (λ r. held r.0 ++ r.1) e
held-got out (x ∷ l) l' e = ap (λ r. held r.0 ++ r.1) e

-- The specification of a call: whether there is a frame, what is read, and what is left behind it.
abbrev pub is_some : List Frame → Bool
is_some [] = false
is_some (f ∷ fs) = true

abbrev pub read_of : Bool → List Frame → Option Frame
read_of false l = none
read_of true [] = none
read_of true (f ∷ fs) = some f

abbrev pub left_of : Bool → List Frame → List Frame
left_of false l = l
left_of true [] = []
left_of true (f ∷ fs) = fs

got_some :
    (out : Option ℕ) (l l' : List ℕ) (fbs : List Frame)
    → (out, l') ≡ fifo_get l
    → is_drawing out ≡ is_some (map (λ i. get_or fbs i blank) l)
got_some out [] l' fbs e = ap (λ r. is_drawing r.0) e
got_some out (x ∷ l) l' fbs e = ap (λ r. is_drawing r.0) e

drawn_held :
    (r : Option ℕ) (fbs : List Frame) (l : List ℕ)
    → drawn r fbs ≡ read_of (is_drawing r) (map (λ i. get_or fbs i blank) (held r ++ l))
unfolding drawn
drawn_held none fbs l = refl
drawn_held (some i) fbs l = refl

left_held :
    (r : Option ℕ) (fbs : List Frame) (l : List ℕ)
    → map (λ i. get_or fbs i blank) l
      ≡ left_of (is_drawing r) (map (λ i. get_or fbs i blank) (held r ++ l))
left_held none fbs l = refl
left_held (some i) fbs l = refl

Pending-left : (r : Option ℕ) (t : ℕ) (l : List ℕ) → Pending t (held r ++ l) → Pending t l
Pending-left none t l p = p
Pending-left (some i) t l p = Pending-popped t (some i) (i ∷ l) l refl p

pub length-in_use : (v : Screen) → length (in_use v) ≡ length (buffers v)
length-in_use v = length-map (buffers v) (λ i. get_or v.video.frames i blank)

abbrev pub with_picture : Picture → Screen → Screen
with_picture p v = record v { video = show_picture p v.video }

module _ (width height : ℕ) where
  pub buffers-shown :
      (p : Picture) (v : Screen)
      → IsSound width height v
      → length (in_use v) ≤ 2
      → buffers (with_picture p v) ≡ fifo_add v.video.current_texture (buffers v)
  unfolding show_picture
  buffers-shown p v r h =
      ap (λ l. held v.reading ++ l)
        (add_frame_refines v.video.current_texture v.video.queue r.queue)
      ∙ held-fifo_add v.reading v.video.current_texture (contents v.video.queue)
          (omega (arith, length-in_use v))

  pub with_picture-IsSound :
      (p : Picture) (v : Screen)
      → IsSound width height v
      → length (in_use v) ≤ 1
      → IsSound width height (with_picture p v)
  unfolding show_picture
  with_picture-IsSound p v r h =
      let t = v.video.current_texture in
      let fbs = v.video.frames in
      let new : IsAllocated width height (copy_picture p (get_or fbs t blank)) =
        copy_picture-IsAllocated width height p (get_or fbs t blank)
          (IsAllocated-at width height fbs t r.texture r.first r.second) in
      record {
        texture = next_texture-lt t;
        two = length-set fbs t (copy_picture p (get_or fbs t blank)) ∙ r.two;
        first = set-IsAllocated width height fbs t 0 _ r.texture (omega arith) r.two new r.first;
        second = set-IsAllocated width height fbs t 1 _ r.texture (omega arith) r.two new r.second;
        queue = add_frame-IsValid t r.queue;
        buffer = r.buffer;
        pending =
            rw (buffers-shown p v r (omega arith))
              (Pending-added t (buffers v) r.texture r.pending (omega (arith, length-in_use v)));
      }

  pub in_use-shown :
      (p : Picture) (v : Screen)
      → IsSound width height v
      → length (in_use v) ≤ 1
      → IsWhole p
      → width ≤ p.width
      → height ≤ p.height
      → in_use (with_picture p v) ≡ in_use v ++ image width height p ∷ []
  unfolding show_picture
  in_use-shown p v r h c hw hh =
      let t = v.video.current_texture in
      let fbs = v.video.frames in
      let fb = get_or fbs t blank in
      ap (map (λ i. get_or (set fbs t (copy_picture p fb)) i blank))
        (buffers-shown p v r (omega arith))
      ∙ waiting_added fbs t (copy_picture p fb) (buffers v) r.texture r.two r.pending
          (omega (arith, length-in_use v))
      ∙ ap (λ f. in_use v ++ f ∷ [])
          (copy_picture-image width height p fb
            (IsAllocated-at width height fbs t r.texture r.first r.second) c hw hh)

  pub buffers-begun :
      (v : Screen) → IsSound width height v → v.reading ≡ none → buffers (begin_draw v) ≡ buffers v
  unfolding begin_draw
  buffers-begun v r e =
      held-got (get_frame v.video.queue).0 (contents v.video.queue)
        (contents (get_frame v.video.queue).1) (get_frame_refines v.video.queue r.queue)
      ∙ ap (λ k. held k ++ contents v.video.queue) (sym e)

  pub begin_draw-IsSound :
      (v : Screen) → IsSound width height v → v.reading ≡ none → IsSound width height (begin_draw v)
  begin_draw-IsSound v r e =
      let same = buffers-begun v r e in
      record {
        texture = unfold begin_draw in r.texture;
        two = unfold begin_draw in r.two;
        first = unfold begin_draw in r.first;
        second = unfold begin_draw in r.second;
        queue = unfold begin_draw in get_frame-IsValid r.queue;
        buffer = unfold begin_draw in r.buffer;
        pending = rw same (unfold begin_draw in r.pending);
      }

  pub in_use-begun :
      (v : Screen) → IsSound width height v → v.reading ≡ none → in_use (begin_draw v) ≡ in_use v
  in_use-begun v r e =
      ap (map (λ i. get_or (begin_draw v).video.frames i blank)) (buffers-begun v r e)
      ∙ (unfold begin_draw in refl)

  pub is_drawing-begun :
      (v : Screen)
      → IsSound width height v
      → v.reading ≡ none
      → is_drawing (begin_draw v).reading ≡ is_some (in_use v)
  unfolding begin_draw
  is_drawing-begun v r e =
      got_some (get_frame v.video.queue).0 (contents v.video.queue)
        (contents (get_frame v.video.queue).1) v.video.frames
        (get_frame_refines v.video.queue r.queue)
      ∙ ap
          (λ k.
            is_some (map (λ i. get_or v.video.frames i blank) (held k ++ contents v.video.queue)))
          (sym e)

  pub end_draw-IsSound : (v : Screen) → IsSound width height v → IsSound width height (end_draw v)
  unfolding end_draw
  end_draw-IsSound v r = record {
    texture = r.texture;
    two = r.two;
    first = r.first;
    second = r.second;
    queue = r.queue;
    buffer = r.buffer;
    pending = Pending-left v.reading v.video.current_texture (contents v.video.queue) r.pending;
  }

pub read_planes_lem : (v : Screen) → read_planes v ≡ read_of (is_drawing v.reading) (in_use v)
unfolding read_planes
read_planes_lem v = drawn_held v.reading v.video.frames (contents v.video.queue)

pub in_use-ended : (v : Screen) → in_use (end_draw v) ≡ left_of (is_drawing v.reading) (in_use v)
unfolding end_draw
in_use-ended v = left_held v.reading v.video.frames (contents v.video.queue)
