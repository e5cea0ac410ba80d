-- ===== src/Textures/Filling/Layout.antt =====
-- src/wii/gx_video.c: the words of the textures hold the picture as the texture unit reads it.
use moonlight_wii.Prelude.{
  ℕ, zero, suc, ◌+◌, ◌-◌, ◌*◌, ◌/◌, ◌%◌, ◌≤◌, ◌<◌, ◌≡◌, refl, sym, ap, ap₂, ◌∙◌, List, [], ◌∷◌,
  ◌++◌, append_assoc, if◌then◌else◌, ltb, arith, lt→ltb, false,
}
use moonlight_wii.Textures.{Sizes, config_yuv, skipped}
use moonlight_wii.Textures.Filling.{
  Side, left, right, Move, row_pitch, copy_tile, copy_tiles, copy_rows, luma_copy,
}
pub mod Columns
unfoldable pub use Columns.*

-- How the counts of `gx_video_config_yuv` go with the widths of the textures.
record IsLaidOut (s : Sizes) : Type 0 where
  whole : (s.wl + s.wr) * 8 ≡ s.ywidth
  left_columns : left_width s / 8 * 4 ≡ s.wl * 4 + skipped s.wr
  right_columns : 0 < s.wr → right_width s / 8 * 4 ≡ s.wr * 4 + skipped s.wr

config_yuv-IsLaidOut : (width height : ℕ) → IsLaidOut (config_yuv width height)
unfolding config_yuv left_width right_width skipped
config_yuv-IsLaidOut width height = record {
  whole = ground arith;
  left_columns = ground arith;
  right_columns = λ h. ground arith;
}

module _ (s : Sizes) (stride : ℕ) (v : IsLaidOut s) (narrow : s.ywidth ≤ stride * 4)
    (pitch : stride * 4 < s.ywidth + 65536) where
  right_part :
      (k n word src : ℕ)
      → (0 < n → word ≡ (k * (right_width s / 8) + 1) * 4)
      → src ≡ 4 * k * stride + s.wl * 8
      → copy_tiles right stride n word src ≡ columns s stride k n s.wl
  unfolding copy_tiles columns
  right_part k zero word src e f = refl
  right_part k (suc n) word src e f =
      columns-right s stride k (suc n) 0 word src (e (omega arith)) (f ∙ omega arith)
      ∙ ap (columns s stride k (suc n)) (omega arith)

  copy_rows-lines :
      (rows k yl yr src : ℕ)
      → yl ≡ k * (left_width s / 8) * 4
      → (0 < s.wr → yr ≡ (k * (right_width s / 8) + 1) * 4)
      → src ≡ 4 * k * stride
      → copy_rows s stride rows yl yr src ≡ lines s stride rows k
  unfolding copy_rows lines row_pitch
  copy_rows-lines zero k yl yr src e f g = refl
  copy_rows-lines (suc rows) k yl yr src e f g =
      let l = columns-left s stride k s.wl 0 yl src (omega arith) (omega arith) (omega arith) in
      let r = right_part k s.wr yr (src + s.wl * 8) f (omega arith) in
      let next =
        copy_rows-lines rows (k + 1) (yl + s.wl * 4 + skipped s.wr) (yr + s.wr * 4 + skipped s.wr)
          (src + s.wl * 8 + s.wr * 8 + (stride * 4 + 65536 - s.ywidth) % 65536)
          (omega (arith, next_row k (left_width s / 8), v.left_columns))
          (λ h. omega (arith, next_row_right k (right_width s / 8), v.right_columns h, f h))
          (omega (arith, next_lines k stride, v.whole)) in
      let whole : s.wl + s.wr ≡ s.ywidth / 8 = omega (arith, v.whole) in
      let row =
        ap (λ (c : ℕ). columns s stride k s.wl 0 ++ columns s stride k s.wr c) (omega arith)
        ∙ columns-append s stride k s.wl s.wr 0
        ∙ ap (λ (n : ℕ). columns s stride k n 0) whole in
      ap₂ (λ a b. a ++ b) l (ap₂ (λ a b. a ++ b) r next)
      ∙ sym (
          append_assoc (columns s stride k s.wl 0) (columns s stride k s.wr s.wl)
            (lines s stride rows (k + 1)))
      ∙ ap (λ (t : List Move). t ++ lines s stride rows (k + 1)) row

-- For every width and height, and a stride of four lines that are not shorter than the padded line and by
-- less than 65536 bytes longer, the loops copy each eight pixels of each line that there is to the word
-- from which the texture unit reads them, each once, and nothing else.
pub luma_copy-lines :
    (width height stride : ℕ)
    → (config_yuv width height).ywidth ≤ stride * 4
    → stride * 4 < (config_yuv width height).ywidth + 65536
    → luma_copy (config_yuv width height) stride
      ≡ lines (config_yuv width height) stride ((config_yuv width height).yheight / 4) 0
unfolding luma_copy
luma_copy-lines width height stride narrow pitch =
    let s = config_yuv width height in
    copy_rows-lines s stride (config_yuv-IsLaidOut width height) narrow pitch (s.yheight / 4) 0 0 4
      0 (omega arith) (λ h. omega arith) (omega arith)
