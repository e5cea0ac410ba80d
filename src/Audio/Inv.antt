-- ===== src/Audio/Inv.antt =====
-- The invariant of the audio ring, and the stream that it stands for.
use moonlight_wii.Prelude.{
  suc, ◌+◌, ◌-◌, ◌*◌, ◌/◌, ◌%◌, ◌≤◌, ◌<◌, ◌≡◌, refl, ap, ◌∙◌, Bool, true, List, [], ◌∷◌, ◌++◌,
  arith, length, get_or, append_assoc, length-set, ltb, ◌&&◌, ltb→lt, lt→ltb,
}
use moonlight_wii.Circular.{window, window-mod, window-set}
use moonlight_wii.Audio.{Audio, Samples, buffer_size, buffer_count, push_buffer, dma_callback}

-- Whole buffers are queued, no more than the ring has, and the carry holds less than one.
pub record IsValid (a : Audio) : Type 0 where
  pub slots : length a.ring ≡ buffer_count
  pub fill : a.buffer_fill ≡ (a.buffer_play + a.buffered / buffer_size) % buffer_count
  pub play : a.buffer_play < buffer_count
  pub whole : a.buffered % buffer_size ≡ 0
  pub fits : a.buffered ≤ buffer_size * buffer_count

abbrev pub join : List Samples → Samples
join [] = []
join (b ∷ bs) = b ++ join bs

pub join_append : (xs ys : List Samples) → join (xs ++ ys) ≡ join xs ++ join ys
join_append [] ys = refl
join_append (x ∷ xs) ys = rw (join_append xs ys, append_assoc) refl

-- The buffers that wait for the DMA, in the order in which it takes them.
abbrev pub queued : Audio → List Samples
queued a = window [] buffer_count a.ring a.buffer_play (a.buffered / buffer_size)

-- All that was decoded and is not submitted.
abbrev pub stream : Audio → Samples
stream a = join (queued a) ++ a.carry

pub push_buffer-IsValid :
    (b : Samples) (a : Audio)
    → IsValid a
    → a.buffered < buffer_size * buffer_count
    → IsValid (push_buffer b a)
unfolding push_buffer
push_buffer-IsValid b a v h = record {
  slots = length-set a.ring a.buffer_fill b ∙ v.slots;
  fill = omega (arith, v.fill, v.whole);
  play = v.play;
  whole = omega (arith, v.whole);
  fits = omega (arith, v.whole);
}

pub queued-push_buffer :
    (b : Samples) (a : Audio)
    → IsValid a
    → a.buffered < buffer_size * buffer_count
    → queued (push_buffer b a) ≡ queued a ++ b ∷ []
unfolding push_buffer
queued-push_buffer b a v h =
    let e : (a.buffered + buffer_size) / buffer_size ≡ suc (a.buffered / buffer_size) =
      omega arith in
    rw e (
      window-set [] buffer_count a.ring b a.buffer_play (a.buffered / buffer_size) a.buffer_fill
        v.slots (omega (arith, v.whole)) v.fill)

-- The DMA interrupt keeps the invariant.
pub dma_callback-IsValid : (a : Audio) → IsValid a → IsValid (dma_callback a)
unfolding dma_callback
dma_callback-IsValid a v = ground arith

abbrev plays : Audio → Bool
plays a = a.playing && ltb 0 a.buffered

-- A queue that is not empty is its oldest buffer and what is left when that is taken.
queued-split :
    (a : Audio)
    → IsValid a
    → ltb 0 a.buffered ≡ true
    → queued a
      ≡ get_or a.ring a.buffer_play []
        ∷ window [] buffer_count a.ring
            ((a.buffer_play + 1) % buffer_count)
            ((a.buffered - buffer_size) / buffer_size)
queued-split a v h =
    let e : a.buffered / buffer_size ≡ suc ((a.buffered - buffer_size) / buffer_size) =
      omega (arith, ltb→lt 0 a.buffered h, v.whole) in
    let p : a.buffer_play % buffer_count ≡ a.buffer_play = omega (arith, v.play) in
    rw (e, p)
      (ap (λ l. get_or a.ring a.buffer_play [] ∷ l)
        (window-mod [] buffer_count a.ring (a.buffer_play + 1) ((a.buffer_play + 1) % buffer_count)
          _ (omega arith)))

-- While playing, and if a buffer waits, the DMA interrupt submits the oldest one and takes it off.
pub dma_callback-queued :
    (a : Audio)
    → IsValid a
    → a.playing ≡ true
    → 0 < a.buffered
    → let a' = dma_callback a in
      (b : Samples) × (queued a ≡ b ∷ queued a')
      × (a'.submitted ≡ b ∷ a.submitted)
      × (a'.carry ≡ a.carry)
unfolding dma_callback
dma_callback-queued a v p h = (
  get_or a.ring a.buffer_play [],
  rw (p, lt→ltb 0 a.buffered h) (queued-split a v (lt→ltb 0 a.buffered h)),
  rw (p, lt→ltb 0 a.buffered h),
  rw (p, lt→ltb 0 a.buffered h),
)
