-- ===== src/Textures.antt =====
-- src/wii/gx_video.c: the sizes that `gx_video_config_yuv` computes for a stream, and where the loops of
-- `GX_FillTextureYUV` write in the textures that `gx_video_alloc_texture_memory` made once. The textures
-- lie as tiles of four words of eight bytes; a tile is the number of its first word.
pub mod Bounds
pub mod Filling
mod Tests
use moonlight_wii.Prelude.{
  ℕ, zero, suc, ◌+◌, ◌-◌, ◌*◌, ◌/◌, ◌%◌, Bool, List, [], ◌∷◌, ◌++◌, if◌then◌else◌, ltb,
}

abbrev pub max_width : ℕ
max_width = 1280

abbrev pub max_height : ℕ
max_height = 1024

-- What the textures were given, in bytes.
abbrev pub left_bytes : ℕ
left_bytes = 1024 * max_height

abbrev pub right_bytes : ℕ
right_bytes = (max_width - 1024) * max_height

abbrev pub chroma_bytes : ℕ
chroma_bytes = 1024 * (max_height / 2)

-- The sizes that the loops use: `u16` where the source has it.
pub record Sizes : Type 0 where
  pub ywidth : ℕ
  pub yheight : ℕ
  pub uvwidth : ℕ
  pub uvheight : ℕ
  pub wl : ℕ
  pub wr : ℕ

unfoldable pub config_yuv : ℕ → ℕ → Sizes
config_yuv width height =
    let ywidth = (width + 7) / 8 * 8 % 65536 in
    record {
      ywidth = ywidth;
      yheight = (height + 3) / 4 * 4 % 65536;
      uvwidth = (width / 2 + 7) / 8 * 8 % 65536;
      uvheight = (height / 2 + 3) / 4 * 4 % 65536;
      wl = if ltb 128 (ywidth / 8) then 127 else ywidth / 8;
      wr = if ltb 128 (ywidth / 8) then ywidth / 8 - 128 + 1 else 0;
    }

-- `while (tiles--)`: the tiles that are written from a word on.
unfoldable pub tiles : ℕ → ℕ → List ℕ
tiles zero at = []
tiles (suc n) at = at ∷ tiles n (at + 4)

-- if (wr > 0) both pointers are moved past one more tile.
unfoldable pub skipped : ℕ → ℕ
skipped wr = if ltb 0 wr then 4 else 0

-- The loop over the rows of LUMA_COPY on one of its two textures, whose row has `n` tiles.
unfoldable pub luma_rows : ℕ → ℕ → ℕ → ℕ → List ℕ
unfolding tiles skipped
luma_rows n wr zero at = []
luma_rows n wr (suc rows) at = tiles n at ++ luma_rows n wr rows (at + n * 4 + skipped wr)

-- The right texture starts with its second tile.
unfoldable pub luma_left : Sizes → List ℕ
unfolding luma_rows
luma_left s = luma_rows s.wl s.wr (s.yheight / 4) 0

unfoldable pub luma_right : Sizes → List ℕ
unfolding luma_rows
luma_right s = luma_rows s.wr s.wr (s.yheight / 4) 4

-- CHROMA_COPY goes through both of its textures alike.
unfoldable pub chroma_rows : ℕ → ℕ → ℕ → List ℕ
unfolding tiles
chroma_rows n zero at = []
chroma_rows n (suc rows) at = tiles n at ++ chroma_rows n rows (at + n * 4)

unfoldable pub chroma : Sizes → List ℕ
unfolding chroma_rows
chroma s = chroma_rows (s.uvwidth / 8) (s.uvheight / 4) 0
