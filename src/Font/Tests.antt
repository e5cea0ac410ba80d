-- ===== src/Font/Tests.antt =====
-- src/wii/font.c: a dot of two pixels on the canvas of 640 by 480.
use moonlight_wii.Prelude.{ℕ, ◌+◌, ◌*◌, ◌≡◌, refl, ◌∷◌, ◌++◌, ◌==◌, ◌&&◌, if◌then◌else◌, arith}
use moonlight_wii.Prelude.Int.{pos, negsuc, ◌+ℤ◌}
use moonlight_wii.Prelude.Text.{codes}
use moonlight_wii.Font.{
  Store, Canvas, Bitmap, Glyph, font_set_color, shade, inside, draw_freetype_bitmap, draw_text,
  font_printw,
}
use moonlight_wii.Font.Pixels.{
  covered, covered_by, shaded, draw_freetype_bitmap-shaded, font_printw-outside, draw_text-append,
}
use moonlight_wii.Font.Shades.{blend-Between, font_set_color-Between}
use moonlight_wii.Font.Shades

abbrev canvas : Canvas
canvas = record { width = 640; height = 480; luma = 255; alpha = 255; overscan = 32 }

abbrev grey : Store
grey n = 45

abbrev dot : Bitmap
dot = record { width = 2; rows = 1; pitch = 2; buffer = λ n. if n == 0 then 255 else 128 }

-- The first column is to the left of the canvas, the second on it.
dot-clipped : draw_freetype_bitmap canvas dot (negsuc 0) (pos 3) grey 1920 ≡ 150
unfolding draw_freetype_bitmap inside shade ◌+ℤ◌
dot-clipped = refl

draw_freetype_bitmap-shaded_example :
    draw_freetype_bitmap canvas dot (negsuc 0) (pos 3) grey (3 * 640 + 0) ≡ (
      if covered (negsuc 0) 0 2 0 && covered (pos 3) 0 1 3
      then shaded canvas
          (dot.buffer (covered_by (pos 3) 3 * 2 + covered_by (negsuc 0) 0))
          (grey (3 * 640 + 0))
      else grey (3 * 640 + 0))
draw_freetype_bitmap-shaded_example =
    draw_freetype_bitmap-shaded canvas dot (negsuc 0) (pos 3) 0 3 grey (omega arith) (omega arith)

abbrev face : ℕ → Glyph
face c = record { bitmap = dot; left = pos 1; top = pos 10; advance = pos 4 }

font_printw-outside_example :
    font_printw canvas face (pos 28) 639 479 (codes "Connect") grey 400000 ≡ 45
font_printw-outside_example =
    font_printw-outside canvas face (pos 28) 639 479 (codes "Connect") grey 400000 (omega arith)

draw_text-append_example :
    draw_text canvas face (pos 28) (pos 8) (codes "ab" ++ 10 ∷ codes "c") (pos 8) (pos 20) grey
    ≡ draw_text canvas face
        (pos 28)
        (pos 8)
        (codes "c")
        (pos 8)
        (pos 20 +ℤ pos 28)
        (draw_text canvas face (pos 28) (pos 8) (codes "ab") (pos 8) (pos 20) grey)
draw_text-append_example =
    draw_text-append canvas face (pos 28) (pos 8) (codes "ab") (codes "c") (pos 8) (pos 20) grey
      (omega arith)

font_set_color-Between_example : Shades.Between 0 255 (font_set_color 0 255 0 255 canvas).luma
font_set_color-Between_example =
    font_set_color-Between 0 255 0 255 0 255 canvas (omega arith) (omega arith) (omega arith)
      (omega arith)
