-- ===== src/Audio/Faults.antt =====
-- Where the audio ring does not do what its comments promise: the carry is committed whether or not the
-- ring has space, and the buffer that starts playback is submitted again.
use moonlight_wii.Prelude.{
  ℕ, ◌+◌, ◌-◌, ◌*◌, ◌/◌, ◌%◌, ◌≤◌, ◌<◌, ◌≡◌, refl, true, false, [], ◌∷◌, ◌++◌, arith, length, take,
  drop, min, get_or, set, ◌==◌, length-take, length-drop, length-append, ==_iff,
}
use moonlight_wii.Audio.{
  Audio, Samples, buffer_size, buffer_count, push_buffer, commit_carry, fill_carry, push_full,
  keep_rest, append_to_ring, start_playing, dma_callback,
}

-- The carry fills up, and is committed with no test.
fill_carry-full :
    (src : Samples) (a : Audio)
    → 0 < length a.carry
    → length a.carry < buffer_size
    → buffer_size ≤ length a.carry + length src
    → let n = buffer_size - length a.carry in
      fill_carry src a ≡ (drop n src, commit_carry (record a { carry = a.carry ++ take n src }))
unfolding fill_carry
fill_carry-full src a h0 h1 h2 =
    let n : ℕ = buffer_size - length a.carry in
    let begun : (length a.carry == 0) ≡ false = ground arith in
    let all : min (length src) (buffer_size - length a.carry) ≡ buffer_size - length a.carry =
      omega arith in
    let full : (length (a.carry ++ take n src) == buffer_size) ≡ true =
      (==_iff _ _).1
        (omega (arith, length-append {0} a.carry (take n src), length-take {0} n src)) in
    rw (begun, all, full) refl

-- What is kept of the chunk goes to the carry, and nowhere else.
keep_rest-ring :
    (src : Samples) (a : Audio)
    → let a' = keep_rest src a in
      (a'.buffered ≡ a.buffered) × (a'.ring ≡ a.ring) × (a'.buffer_fill ≡ a.buffer_fill)
unfolding keep_rest
keep_rest-ring src a = ground arith

-- A chunk that fills the carry and leaves less than a buffer is committed in any state of the ring, also
-- in one that is full: `get_space` is not asked.
pub append_to_ring-commits :
    (src : Samples) (a : Audio)
    → 0 < length a.carry
    → length a.carry < buffer_size
    → buffer_size ≤ length a.carry + length src
    → length a.carry + length src < 2 * buffer_size
    → let a' = append_to_ring src a in
      (a'.buffered ≡ a.buffered + buffer_size)
      × (a'.ring ≡ set a.ring a.buffer_fill (a.carry ++ take (buffer_size - length a.carry) src))
      × (a'.buffer_fill ≡ (a.buffer_fill + 1) % buffer_count)
unfolding append_to_ring commit_carry push_buffer push_full
append_to_ring-commits src a h0 h1 h2 h3 =
    let n : ℕ = buffer_size - length a.carry in
    let few : length (drop n src) / buffer_size ≡ 0 = omega (arith, length-drop {0} n src) in
    rw (fill_carry-full src a h0 h1 h2, few) (keep_rest-ring (drop n src) _)

-- The first buffer goes to the DMA twice: `ar_decode_and_play_sample` submits it without taking it off
-- the ring, and the first interrupt submits it again.
pub first_buffer-twice :
    (a : Audio)
    → a.playing ≡ false
    → 0 < a.buffered
    → (dma_callback (start_playing a)).submitted
      ≡ get_or a.ring a.buffer_play [] ∷ get_or a.ring a.buffer_play [] ∷ a.submitted
unfolding start_playing dma_callback
first_buffer-twice a p h = ground arith
