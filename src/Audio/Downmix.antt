-- ===== src/Audio/Downmix.antt =====
-- src/wii/audio.c: `downmix`, from any number of channels to two.
use moonlight_wii.Prelude.{
  ℕ, zero, suc, ◌-◌, ◌*◌, ◌/◌, ◌<◌, ◌≡◌, refl, List, [], ◌∷◌, if◌then◌else◌, ◌==◌, length, take,
  drop, get_or, arith,
}
use moonlight_wii.Prelude.Int.{ℤ, pos, negsuc, ◌+ℤ◌, ltb_ℤ, ◌≤ℤ◌}

-- C's division, which rounds towards 0.
unfoldable pub divide : ℤ → ℕ → ℤ
divide (pos n) k = pos (n / k)
divide (negsuc n) k = let q = suc n / k in if q == 0 then pos 0 else negsuc (q - 1)

unfoldable pub sum : List ℤ → ℤ
sum [] = pos 0
sum (s ∷ ss) = s +ℤ sum ss

-- x > 32767 ? 32767 : (x < -32768 ? -32768 : x)
unfoldable pub clamp : ℤ → ℤ
clamp v =
    if ltb_ℤ (pos 32767) v then pos 32767 else if ltb_ℤ v (negsuc 32767) then negsuc 32767 else v

-- One frame: the channels after the first two are folded into both.
unfoldable pub fold_frame : List ℤ → ℕ → List ℤ → List ℤ
fold_frame s channels rest =
    let fold = divide (sum (drop 2 s)) (channels - 2) in
    clamp (get_or s 0 (pos 0) +ℤ fold) ∷ clamp (get_or s 1 (pos 0) +ℤ fold) ∷ rest

unfoldable pub fold_frames : ℕ → List ℤ → ℕ → List ℤ
fold_frames zero src channels = []
fold_frames (suc frames) src channels =
    fold_frame (take channels src) channels (fold_frames frames (drop channels src) channels)

unfoldable pub downmix : List ℤ → ℕ → ℕ → List ℤ
downmix src frames channels =
    if channels == 2 then take (frames * 2) src else fold_frames frames src channels

-- A sample of 16 bits.
abbrev pub IsSample : ℤ → Type 0
IsSample v = (negsuc 32767 ≤ℤ v) × (v ≤ℤ pos 32767)

abbrev pub AreSamples : List ℤ → Type 0
AreSamples [] = Unit
AreSamples (v ∷ vs) = IsSample v × AreSamples vs

clamp-IsSample : (v : ℤ) → IsSample (clamp v)
unfolding clamp
clamp-IsSample v = ground arith

fold_frames-AreSamples :
    (frames : ℕ) (src : List ℤ) (channels : ℕ)
    → AreSamples (fold_frames frames src channels)
      × (length (fold_frames frames src channels) ≡ frames * 2)
unfolding fold_frames fold_frame
fold_frames-AreSamples zero src channels = (tt, refl)
fold_frames-AreSamples (suc frames) src channels =
    let (good, len) = fold_frames-AreSamples frames (drop channels src) channels in
    ((clamp-IsSample _, (clamp-IsSample _, good)), omega (arith, len))

-- Whatever the decoder returned, with more than two channels `downmix` gives two samples of 16 bits for
-- each frame.
pub downmix-AreSamples :
    (src : List ℤ) (frames channels : ℕ)
    → 2 < channels
    → AreSamples (downmix src frames channels) × (length (downmix src frames channels) ≡ frames * 2)
unfolding downmix
downmix-AreSamples src frames channels h =
    let (good, len) = fold_frames-AreSamples frames src channels in ground (arith, good, len)
