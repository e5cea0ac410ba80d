-- ===== src/Audio/Tests.antt =====
-- Runs of the audio ring, and the theorems at concrete states.
use moonlight_wii.Prelude.{◌≡◌, refl, true, false, [], ◌∷◌, ◌++◌, arith, replicate}
use moonlight_wii.Prelude.Int.{pos, negsuc, ◌+ℤ◌}
use moonlight_wii.Audio.{Audio, Samples, silence, append_to_ring}
use moonlight_wii.Audio.Downmix.{downmix, fold_frames, fold_frame, divide, sum, clamp}
use moonlight_wii.Audio.Inv.{stream}
use moonlight_wii.Audio.Stream.{IsReady, append_to_ring-stream}

abbrev tone : Samples
tone = pos 5 ∷ negsuc 4 ∷ pos 0 ∷ []

-- One buffer waits behind slot 31; two samples are in the carry.
abbrev waiting : Audio
waiting = record {
  decoder = true;
  channel_count = 2;
  frame_size = 240;
  carry = pos 1 ∷ pos 2 ∷ [];
  ring = replicate 31 silence ++ tone ∷ [];
  buffer_fill = 0;
  buffer_play = 31;
  buffered = 2048;
  playing = true;
  audio_inited = true;
  callback = true;
  submitted = [];
}

waiting-IsReady : IsReady waiting
waiting-IsReady = omega arith

append_to_ring-stream_example :
    (stream (append_to_ring tone waiting) ≡ stream waiting ++ tone)
    × IsReady (append_to_ring tone waiting)
append_to_ring-stream_example = append_to_ring-stream tone waiting waiting-IsReady (omega arith)

-- The ring is full, and a chunk of 240 frames comes.
abbrev full : Audio
full = record waiting { carry = replicate 1900 (pos 1); buffered = 65536; buffer_fill = 31 }

abbrev chunk : Samples
chunk = replicate 480 (pos 2)

abbrev stopped : Audio
stopped = record waiting { playing = false }

abbrev surround : Samples
surround = pos 30000 ∷ negsuc 30000 ∷ pos 20000 ∷ pos 1 ∷ pos 5 ∷ pos 7 ∷ pos 2 ∷ pos 4 ∷ []

downmix-surround : downmix surround 2 4 ≡ pos 32767 ∷ negsuc 20000 ∷ pos 8 ∷ pos 10 ∷ []
unfolding downmix fold_frames fold_frame divide sum clamp ◌+ℤ◌
downmix-surround = refl
