-- ===== src/Textures/Bounds.antt =====
-- Which streams fit the textures.
use moonlight_wii.Prelude.{ℕ, zero, suc, ◌+◌, ◌*◌, ◌/◌, ◌≤◌, ◌<◌, ◌≡◌, List, [], ◌∷◌, ◌++◌, arith}
use moonlight_wii.Textures.{
  config_yuv, tiles, skipped, luma_rows, luma_left, luma_right, chroma_rows, chroma, left_bytes,
  right_bytes, chroma_bytes,
}

-- Every tile ends within a texture of so many words.
abbrev pub Within : ℕ → List ℕ → Type 0
Within words [] = Unit
Within words (t ∷ ts) = (t + 4 ≤ words) × Within words ts

Within-append : (words : ℕ) (a b : List ℕ) → Within words a → Within words b → Within words (a ++ b)
Within-append words [] b h k = k
Within-append words (t ∷ a) b h k = (h.0, Within-append words a b h.1 k)

Within-front : (words : ℕ) (a b : List ℕ) → Within words (a ++ b) → Within words a × Within words b
Within-front words [] b h = (tt, h)
Within-front words (t ∷ a) b h = let r = Within-front words a b h.1 in ((h.0, r.0), r.1)

tiles-Within : (words n at : ℕ) → at + n * 4 ≤ words → Within words (tiles n at)
unfolding tiles
tiles-Within words zero at h = tt
tiles-Within words (suc n) at h = (omega arith, tiles-Within words n (at + 4) (omega arith))

-- Nothing is written past the last row.
luma_rows-Within :
    (words n wr rows at : ℕ)
    → at + rows * (n * 4 + skipped wr) ≤ words
    → Within words (luma_rows n wr rows at)
unfolding luma_rows
luma_rows-Within words n wr zero at h = tt
luma_rows-Within words n wr (suc rows) at h =
    Within-append words (tiles n at) (luma_rows n wr rows (at + n * 4 + skipped wr))
      (tiles-Within words n at (omega arith))
      (luma_rows-Within words n wr rows (at + n * 4 + skipped wr) (omega arith))

chroma_rows-Within :
    (words n rows at : ℕ) → at + rows * (n * 4) ≤ words → Within words (chroma_rows n rows at)
unfolding chroma_rows
chroma_rows-Within words n zero at h = tt
chroma_rows-Within words n (suc rows) at h =
    Within-append words (tiles n at) (chroma_rows n rows (at + n * 4))
      (tiles-Within words n at (omega arith))
      (chroma_rows-Within words n rows (at + n * 4) (omega arith))

product_le : (a b c d : ℕ) → a ≤ c → b ≤ d → a * b ≤ c * d
product_le a b c d h k = grind arith

left_row_le :
    (width height : ℕ)
    → (config_yuv width height).wl * 4 + skipped (config_yuv width height).wr ≤ 512
unfolding config_yuv skipped
left_row_le width height = ground arith

right_row_le :
    (width height : ℕ)
    → width ≤ 1280
    → (config_yuv width height).wr * 4 + skipped (config_yuv width height).wr ≤ 136
unfolding config_yuv skipped
right_row_le width height h = ground arith

-- For a stream of at most 1280 by 960 every tile that is written lies in its texture.
pub config_yuv-Within :
    (width height : ℕ)
    → width ≤ 1280
    → height ≤ 960
    → Within (left_bytes / 8) (luma_left (config_yuv width height))
      × Within (right_bytes / 8) (luma_right (config_yuv width height))
      × Within (chroma_bytes / 8) (chroma (config_yuv width height))
unfolding config_yuv luma_left luma_right chroma
config_yuv-Within width height hw hh =
    let s = config_yuv width height in
    let rows : s.yheight / 4 ≤ 240 = omega arith in
    let left : s.wl * 4 + skipped s.wr ≤ 512 = left_row_le width height in
    let right : s.wr * 4 + skipped s.wr ≤ 136 = right_row_le width height hw in
    (
      luma_rows-Within (left_bytes / 8) s.wl s.wr (s.yheight / 4) 0
          (omega (arith, product_le (s.yheight / 4) (s.wl * 4 + skipped s.wr) 240 512 rows left)),
      luma_rows-Within (right_bytes / 8) s.wr s.wr (s.yheight / 4) 4
          (omega (arith, product_le (s.yheight / 4) (s.wr * 4 + skipped s.wr) 240 136 rows right)),
      chroma_rows-Within (chroma_bytes / 8) (s.uvwidth / 8) (s.uvheight / 4) 0 (
          omega (
            arith,
            product_le (s.uvheight / 4) (s.uvwidth / 8 * 4) 120 320 (omega arith) (omega arith),
          )),
    )

Within-tiles-le : (words n at : ℕ) → 0 < n → Within words (tiles n at) → at + n * 4 ≤ words
unfolding tiles
Within-tiles-le words zero at p h = omega arith
Within-tiles-le words (suc zero) at p h = omega (arith, h.0)
Within-tiles-le words (suc (suc n)) at p h =
    omega (arith, Within-tiles-le words (suc n) (at + 4) (omega arith) h.1)

-- Rows that were written within a texture end within it.
Within-luma_rows-le :
    (words n wr rows at : ℕ)
    → 0 < n
    → 0 < rows
    → Within words (luma_rows n wr rows at)
    → at + rows * (n * 4 + skipped wr) ≤ words + skipped wr
unfolding luma_rows
Within-luma_rows-le words n wr zero at p q h = omega arith
Within-luma_rows-le words n wr (suc zero) at p q h =
    omega (arith, Within-tiles-le words n at p (Within-front words (tiles n at) [] h).0)
Within-luma_rows-le words n wr (suc (suc rows)) at p q h =
    let next = at + n * 4 + skipped wr in
    let parts = Within-front words (tiles n at) (luma_rows n wr (suc rows) next) h in
    omega (arith, Within-luma_rows-le words n wr (suc rows) next p (omega arith) parts.1)

wide_row :
    (width height : ℕ)
    → 1024 < width
    → width ≤ 65528
    → ((config_yuv width height).wl ≡ 127) × (skipped (config_yuv width height).wr ≡ 4)
unfolding config_yuv skipped
wide_row width height h k = ground arith

-- For a stream wider and taller than 1024, as 1920x1080 of the settings is, whose padded sizes fit 16 bits,
-- the left texture is written past its end.
pub config_yuv-overrun :
    (width height : ℕ)
    → 1024 < width
    → width ≤ 65528
    → 1024 < height
    → height ≤ 65532
    → ¬ Within (left_bytes / 8) (luma_left (config_yuv width height))
unfolding config_yuv luma_left
config_yuv-overrun width height hw kw hh kh written =
    let s = config_yuv width height in
    let wide = wide_row width height hw kw in
    let rows : 257 ≤ s.yheight / 4 = omega arith in
    let row : 512 ≤ s.wl * 4 + skipped s.wr = omega (arith, wide.0, wide.1) in
    omega (
      arith,
      wide.1,
      product_le 257 512 (s.yheight / 4) (s.wl * 4 + skipped s.wr) rows row,
      Within-luma_rows-le (left_bytes / 8) s.wl s.wr (s.yheight / 4) 0 (omega (arith, wide.0))
          (omega arith) written,
    )
