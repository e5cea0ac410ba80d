-- ===== src/Textures/Tests.antt =====
-- A stream that fits the textures, and the largest one that the settings offer.
use moonlight_wii.Prelude.{
  ◌%◌, ◌↔◌, ℕ, length, replicate, length-replicate, ◌+◌, ◌*◌, ◌<◌, ◌≤◌, ◌++◌, ◌/◌, ◌≡◌, refl, arith,
}
use moonlight_wii.Textures.{
  config_yuv, luma_left, luma_right, chroma, left_bytes, right_bytes, chroma_bytes,
}
use moonlight_wii.Textures.Filling.{left, copy_tile, luma_copy}
use moonlight_wii.Textures.Filling.Layout.{lines, luma_copy-lines}
use moonlight_wii.Decode.{Frame, round_up8}
use moonlight_wii.Decode.Copy.{IsAllocated}
use moonlight_wii.Textures.Filling.Reads.{ReadsWithin, luma_copy-ReadsWithin}
use moonlight_wii.Textures.Bounds.{Within, config_yuv-Within, config_yuv-overrun}

columns_720p : ((config_yuv 1280 720).wl ≡ 127) × ((config_yuv 1280 720).wr ≡ 33)
unfolding config_yuv
columns_720p = (refl, refl)

config_yuv-Within_example :
    Within (left_bytes / 8) (luma_left (config_yuv 1280 720))
    × Within (right_bytes / 8) (luma_right (config_yuv 1280 720))
    × Within (chroma_bytes / 8) (chroma (config_yuv 1280 720))
config_yuv-Within_example = config_yuv-Within 1280 720 (omega arith) (omega arith)

config_yuv-overrun_example : ¬ Within (left_bytes / 8) (luma_left (config_yuv 1920 1080))
config_yuv-overrun_example =
    config_yuv-overrun 1920 1080 (omega arith) (omega arith) (omega arith) (omega arith)

-- A picture of 16 by 4 pixels: two tiles.
small_copy : luma_copy (config_yuv 16 3) 32 ≡ copy_tile left 32 0 0 ++ copy_tile left 32 4 8
unfolding luma_copy config_yuv
small_copy = refl

width_720p :
    ((config_yuv 1280 720).ywidth ≤ 1312 * 4) × (1312 * 4 < (config_yuv 1280 720).ywidth + 65536)
unfolding config_yuv
width_720p = (omega arith, omega arith)

luma_copy-lines_example :
    luma_copy (config_yuv 1280 720) 1312
    ≡ lines (config_yuv 1280 720) 1312 ((config_yuv 1280 720).yheight / 4) 0
luma_copy-lines_example = luma_copy-lines 1280 720 1312 (width_720p.0) (width_720p.1)

abbrev frame_542 : Frame
frame_542 = record {
  y = replicate (960 * 542) 16;
  u = replicate (480 * 271) 128;
  v = replicate (480 * 271) 128;
  width = 960;
  height = 542;
  ystride = 960;
  uvstride = 480;
}

frame_542-IsAllocated : IsAllocated 960 542 frame_542
unfolding round_up8
frame_542-IsAllocated = record {
  width_is = refl;
  height_is = refl;
  ystride_is = refl;
  uvstride_is = refl;
  y_size = length-replicate {A = ℕ} (960 * 542) 16;
  u_size = length-replicate {A = ℕ} (480 * 271) 128;
  v_size = length-replicate {A = ℕ} (480 * 271) 128;
}

luma_copy-ReadsWithin_example :
    ReadsWithin (length frame_542.y) (luma_copy (config_yuv 960 542) 960) ↔ (542 % 4 ≡ 0)
luma_copy-ReadsWithin_example =
    luma_copy-ReadsWithin 960 542 frame_542 (omega arith) (omega arith) (omega arith) (omega arith)
      frame_542-IsAllocated
