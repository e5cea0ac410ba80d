-- ===== src/Textures/Filling.antt =====
-- src/wii/gx_video.c: which bytes of the picture `GX_FillTextureYUV` copies into which words of the two
-- luma textures.
pub mod Layout
pub mod Reads
use moonlight_wii.Prelude.{
  ℕ, zero, suc, ◌+◌, ◌-◌, ◌*◌, ◌/◌, ◌%◌, List, [], ◌∷◌, ◌++◌, if◌then◌else◌, ltb,
}
use moonlight_wii.Textures.{Sizes, skipped}

-- The two textures.
pub data Side : Type 0 where
  left : Side
  right : Side

-- A word of eight bytes, from this offset of the plane on.
pub record Move : Type 0 where
  pub side : Side
  pub word : ℕ
  pub from : ℕ

-- Yrowpitch, an `u16`.
unfoldable pub row_pitch : ℕ → ℕ → ℕ
row_pitch stride ywidth = (stride * 4 + 65536 - ywidth) % 65536

-- The body of `while (tiles--)`: a word of each of four lines, whose pointers move alike.
unfoldable pub copy_tile : Side → ℕ → ℕ → ℕ → List Move
copy_tile side stride word src =
    record { side = side; word = word; from = src }
    ∷ record { side = side; word = word + 1; from = src + stride }
    ∷ record { side = side; word = word + 2; from = src + stride * 2 }
    ∷ record { side = side; word = word + 3; from = src + stride * 3 }
    ∷ []

unfoldable pub copy_tiles : Side → ℕ → ℕ → ℕ → ℕ → List Move
unfolding copy_tile
copy_tiles side stride zero word src = []
copy_tiles side stride (suc tiles) word src =
    copy_tile side stride word src ++ copy_tiles side stride tiles (word + 4) (src + 8)

-- LUMA_COPY from a row on, with the two destinations and the source.
unfoldable pub copy_rows : Sizes → ℕ → ℕ → ℕ → ℕ → ℕ → List Move
unfolding copy_tiles row_pitch skipped
copy_rows s stride zero yl yr src = []
copy_rows s stride (suc rows) yl yr src =
    copy_tiles left stride s.wl yl src
    ++ (copy_tiles right stride s.wr yr (src + s.wl * 8)
        ++ copy_rows s stride rows (yl + s.wl * 4 + skipped s.wr) (yr + s.wr * 4 + skipped s.wr)
            (src + s.wl * 8 + s.wr * 8 + row_pitch stride s.ywidth))

unfoldable pub luma_copy : Sizes → ℕ → List Move
unfolding copy_rows
luma_copy s stride = copy_rows s stride (s.yheight / 4) 0 4 0
