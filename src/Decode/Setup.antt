-- ===== src/Decode/Setup.antt =====
-- What `wii_stream_init` and `wii_decoder_setup` leave a stream to start with.
use moonlight_wii.Prelude.{
  ℕ, zero, suc, ◌+◌, ◌*◌, ◌/◌, ◌<◌, ◌≡◌, refl, ap, ◌∙◌, true, false, Bool, Option, none, some, List,
  [], ◌∷◌, map, arith, length, get_or, length-map, Bool-cases, inl, inr, if◌then◌else◌, ◌==◌, not,
  ◌||◌,
}
use moonlight_wii.Prelude.Int.{ℤ, pos, negsuc}
use moonlight_wii.Prelude.Text.{Bytes}
use moonlight_wii.FrameQueue.{FrameQueue, stream_init, elements_in, max_queuemessages}
use moonlight_wii.FrameQueue.Inv
use moonlight_wii.FrameQueue.Inv.{stream_init-IsValid}
use moonlight_wii.FrameQueue.Refine.{contents}
use moonlight_wii.Decode.{
  Frame, Video, Allocator, Libraries, blank, decoder_buffer_size, num_buffers, round_up8,
  alloc_frame, with_planes, with_buffers, without_planes, wii_alloc_frames, wii_decoder_setup,
  video_init,
}
use moonlight_wii.Decode.Copy.{IsAllocated}
use moonlight_wii.Decode.Order.{IsReady, waiting}

-- `memalign` gives a block of the size that was asked for, or NULL.
abbrev pub IsExact : Allocator → Type 0
IsExact memalign = (i n : ℕ) (block : Bytes) → memalign i n ≡ some block → length block ≡ n

abbrev AllAllocated : ℕ → ℕ → List Frame → Type 0
AllAllocated width height [] = Unit
AllAllocated width height (fb ∷ fbs) = IsAllocated width height fb × AllAllocated width height fbs

IsAllocated-at :
    (width height : ℕ) (fbs : List Frame) (i : ℕ)
    → AllAllocated width height fbs
    → i < length fbs
    → IsAllocated width height (get_or fbs i blank)
IsAllocated-at width height [] i a h = elim h [ ]
IsAllocated-at width height (fb ∷ fbs) zero a h = a.0
IsAllocated-at width height (fb ∷ fbs) (suc i) a h =
    IsAllocated-at width height fbs i a.1 (omega arith)

module _ (memalign : Allocator) (exact : IsExact memalign) (width height : ℕ) where
  alloc_frame-IsAllocated :
      (i : ℕ) (fb : Frame)
      → (alloc_frame memalign i width height fb).1 ≡ true
      → IsAllocated width height (alloc_frame memalign i width height fb).0
  unfolding alloc_frame
  alloc_frame-IsAllocated i fb h = split _ _ _ refl refl refl h
    where
      ys : ℕ
      ys = round_up8 width * height

      us : ℕ
      us = round_up8 (width / 2) * (height / 2)

      sized : Frame
      sized = record fb {
        width = width;
        height = height;
        ystride = round_up8 width;
        uvstride = round_up8 (width / 2);
      }

      split :
          (a b c : Option Bytes)
          → memalign (3 * i) ys ≡ a
          → memalign (3 * i + 1) us ≡ b
          → memalign (3 * i + 2) us ≡ c
          → (with_planes a b c sized).1 ≡ true
          → IsAllocated width height (with_planes a b c sized).0
      split (some y) (some u) (some v) ea eb ec h = record {
        width_is = refl;
        height_is = refl;
        ystride_is = refl;
        uvstride_is = refl;
        y_size = exact (3 * i) ys y ea;
        u_size = exact (3 * i + 1) us u eb;
        v_size = exact (3 * i + 2) us v ec;
      }
      split none b c ea eb ec h = cc
      split (some y) none c ea eb ec h = cc
      split (some y) (some u) none ea eb ec h = cc

  wii_alloc_frames-AllAllocated :
      (i : ℕ) (fbs : List Frame)
      → (wii_alloc_frames memalign width height i fbs).1 ≡ true
      → AllAllocated width height (wii_alloc_frames memalign width height i fbs).0
  unfolding wii_alloc_frames
  wii_alloc_frames-AllAllocated i [] h = tt
  wii_alloc_frames-AllAllocated i (fb ∷ fbs) h =
      elim (Bool-cases (alloc_frame memalign i width height fb).1) [
        | inl e ↦
            rw e (
              alloc_frame-IsAllocated i fb e,
              wii_alloc_frames-AllAllocated (i + 1) fbs (rw e at h),
            )
        | inr e ↦ absurd (let h' : false ≡ true = rw e at h in cc)
      ]

  length-wii_alloc_frames :
      (i : ℕ) (fbs : List Frame)
      → length (wii_alloc_frames memalign width height i fbs).0 ≡ length fbs
  unfolding wii_alloc_frames
  length-wii_alloc_frames i [] = refl
  length-wii_alloc_frames i (fb ∷ fbs) = ground (arith, length-wii_alloc_frames (i + 1) fbs)

contents-stream_init : (q : FrameQueue) → contents (stream_init q) ≡ []
unfolding stream_init elements_in
contents-stream_init q = refl

module _ (width height : ℕ) (s : Video) where
  with_buffers-IsReady :
      (block : Option Bytes) (fbs : List Frame) (whole : Bool)
      → ((b : Bytes) → block ≡ some b → length b ≡ decoder_buffer_size + 64)
      → (whole ≡ true → AllAllocated width height fbs)
      → length fbs ≡ 2
      → Inv.IsValid s.queue
      → contents s.queue ≡ []
      → (with_buffers block (fbs, whole) s).1 ≡ pos 0
      → IsReady width height (with_buffers block (fbs, whole) s).0
        × (waiting (with_buffers block (fbs, whole) s).0 ≡ [])
  unfolding with_buffers
  with_buffers-IsReady (some b) fbs true hb ha hl v e h = (
    record {
      texture = omega arith;
      two = hl;
      first = IsAllocated-at width height fbs 0 (ha refl) (omega arith);
      second = IsAllocated-at width height fbs 1 (ha refl) (omega arith);
      queue = v;
      buffer = omega (arith, hb b refl);
      pending = inl e;
    },
    ap (map (λ i. get_or fbs i blank)) e,
  )
  with_buffers-IsReady none fbs true hb ha hl v e h = cc
  with_buffers-IsReady block fbs false hb ha hl v e h = cc

-- Of two guards that return -1, neither has returned.
past_guards :
    (P : Video × ℤ → Type 0) (a b : Bool) (s t : Video) (out : Video × ℤ)
    → (out.1 ≡ pos 0 → P out)
    → (if a then (s, negsuc 0) else if b then (t, negsuc 0) else out).1 ≡ pos 0
    → P (if a then (s, negsuc 0) else if b then (t, negsuc 0) else out)
past_guards P true b s t out f h = absurd (cc)
past_guards P false true s t out f h = absurd (cc)
past_guards P false false s t out f h = f h

-- A stream that can start: ready, with no frame that waits.
abbrev pub Starts : ℕ → ℕ → Video × ℤ → Type 0
Starts width height out = IsReady width height out.0 × (waiting out.0 ≡ [])

module _ (libs : Libraries) (exact : IsExact libs.memalign) where
  -- A stream whose decoder was set up without an error starts with two frame buffers of its size, an empty
  -- queue of 16 slots and no frame that waits, if `memalign` gives blocks of the size that was asked for.
  pub wii_decoder_setup-IsReady :
      (video_format width height : ℕ) (s : Video)
      → length s.frames ≡ num_buffers
      → length s.queue.messages ≡ max_queuemessages
      → (wii_decoder_setup libs video_format width height (video_init s)).1 ≡ pos 0
      → Starts width height (wii_decoder_setup libs video_format width height (video_init s))
  unfolding wii_decoder_setup video_init
  wii_decoder_setup-IsReady video_format width height s hf hq h =
      let fbs = map without_planes s.frames in
      let out = wii_alloc_frames libs.memalign width height 0 fbs in
      past_guards (Starts width height) (not (video_format == 1) || not libs.finds_decoder)
        (not libs.allocates_context || not libs.opens) (video_init s)
        (record (video_init s) { ctx = false })
        (with_buffers (libs.memalign 6 (decoder_buffer_size + 64)) out (video_init s))
        (with_buffers-IsReady width height (video_init s)
          (libs.memalign 6 (decoder_buffer_size + 64)) out.0 out.1
          (exact 6 (decoder_buffer_size + 64))
          (wii_alloc_frames-AllAllocated libs.memalign exact width height 0 fbs)
          (length-wii_alloc_frames libs.memalign exact width height 0 fbs
            ∙ length-map s.frames without_planes
            ∙ hf)
          (stream_init-IsValid s.queue hq) (contents-stream_init s.queue))
        h
