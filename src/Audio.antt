-- ===== src/Audio.antt =====
-- src/wii/audio.c: the ring of buffers between the audio decoder and the DMA interrupt. Sizes are
-- counted in samples of 16 bits, since every copy of the source takes a whole number of them. The Opus
-- decoder and the audio hardware are outside the program. What the DMA interrupt does between two
-- statements of the decoder's thread is a call of `dma_callback` between two of these functions.
pub mod Downmix
pub mod Inv
pub mod Stream
pub mod Faults
mod Tests
use moonlight_wii.Prelude.{
  ℕ, zero, suc, ◌+◌, ◌-◌, ◌*◌, ◌/◌, ◌%◌, Bool, true, false, not, ◌&&◌, Option, none, some, List, [],
  ◌∷◌, ◌++◌, if◌then◌else◌, ◌==◌, leb, ltb, min, length, take, drop, set, get_or, replicate,
}
use moonlight_wii.Prelude.Int.{ℤ, pos, negsuc}
use moonlight_wii.Audio.Downmix.{downmix}

-- BUFFER_SIZE, 4096 bytes
abbrev pub buffer_size : ℕ
buffer_size = 2048

abbrev pub buffer_count : ℕ
buffer_count = 32

abbrev pub max_frames : ℕ
max_frames = 5760

abbrev pub Samples : Type 0
Samples = List ℤ

unfoldable pub silence : Samples
silence = replicate buffer_size (pos 0)

-- The static state; `decoder` says that it is not NULL, and `carry` is the first `carryFill` samples of the carry buffer. `submitted` are the
-- buffers that `AUDIO_InitDMA` was given, the last one first; `callback` says that ours is registered.
pub record Audio : Type 0 where
  pub decoder : Bool
  pub channel_count : ℕ
  pub frame_size : ℕ
  pub carry : Samples
  pub ring : List Samples
  pub buffer_fill : ℕ
  pub buffer_play : ℕ
  pub buffered : ℕ
  pub playing : Bool
  pub audio_inited : Bool
  pub callback : Bool
  pub submitted : List Samples

-- An `int`, which is negative where more is buffered than the ring should hold: whether it is at least
-- one buffer.
unfoldable pub has_space : Audio → Bool
has_space a = leb (a.buffered + buffer_size) (buffer_size * (buffer_count - 2))

unfoldable pub dma_callback : Audio → Audio
dma_callback a =
    if a.playing && ltb 0 a.buffered
    then record a {
      submitted = get_or a.ring a.buffer_play [] ∷ a.submitted;
      buffer_play = (a.buffer_play + 1) % buffer_count;
      buffered = a.buffered - buffer_size;
    }
    else record a { submitted = silence ∷ a.submitted }

-- A full buffer goes to the ring.
unfoldable pub push_buffer : Samples → Audio → Audio
push_buffer b a = record a {
  ring = set a.ring a.buffer_fill b;
  buffer_fill = (a.buffer_fill + 1) % buffer_count;
  buffered = a.buffered + buffer_size;
}

-- `commit_carry`, which does not ask for space
unfoldable pub commit_carry : Audio → Audio
commit_carry a = let a' = push_buffer a.carry a in record a' { carry = [] }

-- The first part of `append_to_ring`; what is left of the chunk.
unfoldable pub fill_carry : Samples → Audio → Samples × Audio
fill_carry src a =
    if length a.carry == 0
    then (src, a)
    else let n = min (length src) (buffer_size - length a.carry) in
      let a' = record a { carry = a.carry ++ take n src } in
      (drop n src, if length a'.carry == buffer_size then commit_carry a' else a')

-- The `while` loop of `append_to_ring`, for as many rounds as the chunk has full buffers.
unfoldable pub push_full : ℕ → Samples → Audio → Samples × Audio
push_full zero src a = (src, a)
push_full (suc fuel) src a =
    let rest = push_full fuel (drop buffer_size src) (push_buffer (take buffer_size src) a) in
    if leb buffer_size (length src) && has_space a then rest else (src, a)

-- The last `if` of `append_to_ring`: what is a full buffer or more is dropped.
unfoldable pub keep_rest : Samples → Audio → Audio
keep_rest src a =
    if ltb 0 (length src) && ltb (length src) buffer_size then record a { carry = src } else a

unfoldable pub append_to_ring : Samples → Audio → Audio
append_to_ring src a =
    let (src', a') = fill_carry src a in
    let (rest, a'') = push_full (length src' / buffer_size) src' a' in keep_rest rest a''

-- The end of `ar_decode_and_play_sample`: the first buffer starts the DMA.
unfoldable pub start_playing : Audio → Audio
start_playing a =
    if not a.playing && ltb 0 a.buffered
    then record a { playing = true; submitted = get_or a.ring a.buffer_play [] ∷ a.submitted }
    else a

-- What is played of a decoded packet: two samples for each frame.
unfoldable pub stereo : ℕ → ℕ → Samples → Samples
stereo channels frames pcm =
    if ltb 2 channels then downmix pcm frames channels else take (frames * 2) pcm

-- `decode` is what `opus_multistream_decode` returns for the packet, with the given limit on frames,
-- and what it writes to `decodeBuf`: `none` stands for zero frames or an error. `lost` says that the
-- packet has no data, so that one frame period is concealed.
unfoldable pub ar_decode_and_play_sample : (ℕ → Option (ℕ × Samples)) → Bool → Audio → Audio
unfolding stereo
ar_decode_and_play_sample decode lost a =
    if a.decoder
    then elim (decode (if lost then a.frame_size else max_frames)) [
      | none ↦ a
      | some p ↦ start_playing (append_to_ring (stereo a.channel_count p.0 p.1) a)
    ]
    else a

-- `created` says that Opus gives a decoder, and `allocated` that no buffer is NULL; where one is, no
-- buffer is used afterwards. `frame_size` takes a packet length of 0 or less, here 0, for 960.
unfoldable pub ar_init : Bool → Bool → ℕ → ℕ → Audio → ℤ × Audio
ar_init false allocated channels samples_per_frame a = (negsuc 0, record a { decoder = false })
ar_init true false channels samples_per_frame a = (
  negsuc 0,
  record a {
    decoder = true;
    channel_count = channels;
    frame_size = if samples_per_frame == 0 then 960 else samples_per_frame;
    ring = [];
  },
)
ar_init true true channels samples_per_frame a = (
  pos 0,
  record {
    decoder = true;
    channel_count = channels;
    frame_size = if samples_per_frame == 0 then 960 else samples_per_frame;
    carry = [];
    ring = replicate buffer_count silence;
    buffer_fill = 0;
    buffer_play = 0;
    buffered = 0;
    playing = false;
    audio_inited = true;
    callback = true;
    submitted = a.submitted;
  },
)

unfoldable pub ar_start : Audio → Audio
ar_start a = record a {
  buffer_fill = 0;
  buffer_play = 0;
  buffered = 0;
  carry = [];
  playing = false;
  callback = true;
}

unfoldable pub ar_stop : Audio → Audio
ar_stop a = record a { callback = false; playing = false; buffered = 0; carry = [] }

-- `carryFill` and `buffered` keep their values, but with no decoder nothing reads them until the next
-- `ar_init`.
unfoldable pub ar_cleanup : Audio → Audio
ar_cleanup a = record a { decoder = false; callback = false; ring = []; audio_inited = false }
