-- ===== src/Font.antt =====
-- src/wii/font.c: text drawn into the canvas of the menus. A face of freetype is a function from
-- characters to rendered glyphs. The canvas is memory: a byte for each number of bytes behind
-- `font_buffer`, those outside the buffer included.
pub mod Pixels
pub mod Shades
pub mod Overscan
mod Tests
use moonlight_wii.Prelude.{
  ℕ, zero, suc, ◌+◌, ◌-◌, ◌*◌, ◌/◌, ◌%◌, Option, none, some, List, [], ◌∷◌, ◌==◌, ltb,
  if◌then◌else◌,
}
use moonlight_wii.Prelude.Int.{ℤ, pos, negsuc, ◌+ℤ◌, ◌-ℤ◌}

abbrev pub Store : Type 0
Store = ℕ → ℕ

-- The state of font.c. The pitch of the canvas is its width.
pub record Canvas : Type 0 where
  pub width : ℕ
  pub height : ℕ
  pub luma : ℕ
  pub alpha : ℕ
  pub overscan : ℕ

-- FT_Bitmap
pub record Bitmap : Type 0 where
  pub width : ℕ
  pub rows : ℕ
  pub pitch : ℕ
  pub buffer : Store

-- What FT_Load_Glyph and FT_Render_Glyph leave in the slot, with whole pixels to advance.
pub record Glyph : Type 0 where
  pub bitmap : Bitmap
  pub left : ℤ
  pub top : ℤ
  pub advance : ℤ

-- font_luma = (r * 77 + g * 150 + b * 29) / 256
unfoldable pub font_set_color : ℕ → ℕ → ℕ → ℕ → Canvas → Canvas
font_set_color r g b a f = record f { luma = (r * 77 + g * 150 + b * 29) / 256 % 256; alpha = a }

-- A coordinate of the canvas, drawn in by the margin on both sides.
unfoldable pub overscan_map : ℕ → ℕ → ℕ → ℕ
overscan_map m w x = let sw = if ltb (2 * m) w then w - 2 * m else 1 in m + x * sw / w

unfoldable pub font_overscan_map : Canvas → ℕ → ℕ → ℕ × ℕ
unfolding overscan_map
font_overscan_map f px py =
    if f.overscan == 0
    then (px, py)
    else (overscan_map f.overscan f.width px, overscan_map f.overscan f.height py)

-- The byte that a pixel becomes under an opacity.
unfoldable pub blend : ℕ → ℕ → ℕ → ℕ → ℕ
blend luma alpha opacity old =
    let a = alpha * opacity / 255 % 256 in (luma * a + old * (255 - a)) / 255 % 256

unfoldable pub store_byte : Store → ℕ → ℕ → Store
store_byte mem k v n = if n == k then v else mem n

-- A coordinate that is not below 0 and not at or above the bound.
unfoldable pub inside : ℤ → ℕ → Option ℕ
inside (pos n) bound = if ltb n bound then some n else none
inside (negsuc n) bound = none

-- The body of the loops of `draw_freetype_bitmap`, at a pixel of the bitmap and a place of the canvas.
unfoldable pub shade : Canvas → ℕ → ℕ → Store → Store
unfolding blend store_byte
shade f opacity k mem =
    if opacity == 0 then mem else store_byte mem k (blend f.luma f.alpha opacity (mem k))

unfoldable pub draw_pixel : Canvas → Bitmap → ℕ → ℕ → ℤ → ℤ → Store → Store
unfolding inside shade
draw_pixel f bitmap p q i j mem = elim (inside i f.width) [
  | none ↦ mem
  | some column ↦ elim (inside j f.height) [
    | none ↦ mem
    | some row ↦ shade f (bitmap.buffer (q * bitmap.pitch + p)) (row * f.width + column) mem
  ]
]

-- The inner loop, with the rows that are left, and the outer one, with the columns.
unfoldable pub draw_column : Canvas → Bitmap → ℕ → ℤ → ℤ → ℕ → ℕ → Store → Store
unfolding draw_pixel
draw_column f bitmap p i y zero q mem = mem
draw_column f bitmap p i y (suc n) q mem =
    draw_column f bitmap p i y n (q + 1) (draw_pixel f bitmap p q i (y +ℤ pos q) mem)

unfoldable pub draw_columns : Canvas → Bitmap → ℤ → ℤ → ℕ → ℕ → Store → Store
unfolding draw_column
draw_columns f bitmap x y zero p mem = mem
draw_columns f bitmap x y (suc n) p mem =
    draw_columns f bitmap x y n (p + 1) (draw_column f bitmap p (x +ℤ pos p) y bitmap.rows 0 mem)

unfoldable pub draw_freetype_bitmap : Canvas → Bitmap → ℤ → ℤ → Store → Store
unfolding draw_columns
draw_freetype_bitmap f bitmap x y mem = draw_columns f bitmap x y bitmap.width 0 mem

-- The loop over the characters: a newline goes back to the first column.
unfoldable pub draw_text : Canvas → (ℕ → Glyph) → ℤ → ℤ → List ℕ → ℤ → ℤ → Store → Store
unfolding draw_freetype_bitmap
draw_text f face line ox [] x y mem = mem
draw_text f face line ox (c ∷ s) x y mem =
    let glyph = face c in
    let next_line = draw_text f face line ox s ox (y +ℤ line) mem in
    let next =
      draw_text f face line ox s (x +ℤ glyph.advance) y
        (draw_freetype_bitmap f glyph.bitmap (x +ℤ glyph.left) (y -ℤ glyph.top) mem) in
    if c == 10 then next_line else next

-- Where there is a face; `line` is the height of a line in whole pixels.
unfoldable pub font_printw : Canvas → (ℕ → Glyph) → ℤ → ℕ → ℕ → List ℕ → Store → Store
unfolding font_overscan_map draw_text
font_printw f face line x y string mem =
    let o = font_overscan_map f x y in
    draw_text f face line (pos (o.0)) string (pos (o.0)) (pos (o.1)) mem
