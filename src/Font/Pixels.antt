-- ===== src/Font/Pixels.antt =====
-- src/wii/font.c: what `draw_freetype_bitmap` makes of every pixel of the canvas.
use moonlight_wii.Prelude.{
  ℕ, zero, suc, ◌+◌, ◌-◌, ◌*◌, ◌≤◌, ◌<◌, ◌≡◌, ◌≢◌, ◌++◌, refl, ◌∙◌, Bool, ◌&&◌, inl, inr, List, [],
  ◌∷◌, ◌==◌, leb, ltb, if◌then◌else◌, Bool-cases, arith,
}
use moonlight_wii.Prelude.Int.{ℤ, pos, negsuc, pos_part, neg_part, ◌+ℤ◌, ◌-ℤ◌}
use moonlight_wii.Font.{
  Store, Canvas, Bitmap, Glyph, blend, shade, draw_pixel, draw_column, draw_columns,
  draw_freetype_bitmap, draw_text, font_printw, font_overscan_map,
}

-- Whether a coordinate of the canvas is covered by `n` columns or rows that begin with number `q` of a
-- bitmap at `y`, and by which one.
abbrev pub covered : ℤ → ℕ → ℕ → ℕ → Bool
covered y q n j = leb (pos_part y + q) (j + neg_part y) && ltb (j + neg_part y) (pos_part y + q + n)

abbrev pub covered_by : ℤ → ℕ → ℕ
covered_by y j = j + neg_part y - pos_part y

abbrev is_at : ℤ → ℕ → Bool
is_at i n = pos_part i == n + neg_part i

abbrev pub shaded : Canvas → ℕ → ℕ → ℕ
shaded f opacity old = if opacity == 0 then old else blend f.luma f.alpha opacity old

index-lt : (w i j i' j' : ℕ) → i < w → j < j' → j * w + i < j' * w + i'
index-lt w i j i' j' h k = grind arith

index_inj : (w i j i' j' : ℕ) → i < w → i' < w → j * w + i ≡ j' * w + i' → (i ≡ i') × (j ≡ j')
index_inj w i j i' j' h h' e = ground (arith, index-lt w i j i' j' h, index-lt w i' j' i j h')

shade-at :
    (f : Canvas) (opacity k n : ℕ) (mem : Store)
    → shade f opacity k mem n ≡ (if k == n then shaded f opacity (mem n) else mem n)
unfolding shade
shade-at f opacity k n mem = elim (Bool-cases (k == n)) [
  | inl same ↦ let e : k ≡ n = ground arith in rw e (ground arith)
  | inr other ↦ ground arith
]

module _ (f : Canvas) (bitmap : Bitmap) (i j : ℕ) (hi : i < f.width) (hj : j < f.height) where
  abbrev here : ℕ
  here = j * f.width + i

  draw_pixel-here :
      (p q : ℕ) (x y : ℤ) (mem : Store)
      → draw_pixel f bitmap p q x y mem here ≡ (
          if is_at x i && is_at y j
          then shaded f (bitmap.buffer (q * bitmap.pitch + p)) (mem here)
          else mem here)
  unfolding draw_pixel
  draw_pixel-here p q (pos a) (pos b) mem = ground (
    arith,
    index_inj f.width a b i j,
    shade-at f (bitmap.buffer (q * bitmap.pitch + p)) (b * f.width + a) here mem,
  )
  draw_pixel-here p q (pos a) (negsuc b) mem = ground arith
  draw_pixel-here p q (negsuc a) (pos b) mem = ground arith
  draw_pixel-here p q (negsuc a) (negsuc b) mem = ground arith

  is_at-add : (y : ℤ) (q : ℕ) (n : ℕ) → is_at (y +ℤ pos q) n ≡ (pos_part y + q == n + neg_part y)
  unfolding ◌+ℤ◌
  is_at-add y q n = ground arith

  draw_column-here :
      (p : ℕ) (x y : ℤ) (n q : ℕ) (mem : Store)
      → draw_column f bitmap p x y n q mem here ≡ (
          if is_at x i && covered y q n j
          then shaded f (bitmap.buffer (covered_by y j * bitmap.pitch + p)) (mem here)
          else mem here)
  unfolding draw_column
  draw_column-here p x y zero q mem = ground arith
  draw_column-here p x y (suc n) q mem = ground (
    arith,
    draw_column-here p x y n (q + 1) (draw_pixel f bitmap p q x (y +ℤ pos q) mem),
    draw_pixel-here p q x (y +ℤ pos q) mem,
    is_at-add y q j,
  )

  abbrev opacity : ℤ → ℤ → ℕ
  opacity x y = bitmap.buffer (covered_by y j * bitmap.pitch + covered_by x i)

  draw_columns-here :
      (x y : ℤ) (n p : ℕ) (mem : Store)
      → draw_columns f bitmap x y n p mem here ≡ (
          if covered x p n i && covered y 0 bitmap.rows j
          then shaded f (opacity x y) (mem here)
          else mem here)
  unfolding draw_columns
  draw_columns-here x y zero p mem = ground arith
  draw_columns-here x y (suc n) p mem = ground (
    arith,
    draw_columns-here x y n (p + 1) (draw_column f bitmap p (x +ℤ pos p) y bitmap.rows 0 mem),
    draw_column-here p (x +ℤ pos p) y bitmap.rows 0 mem,
    is_at-add x p i,
  )

-- Every pixel of the canvas that the bitmap covers at this place is blended with the opacity of the
-- bitmap's pixel that lies on it, and kept where that is 0; every other pixel is kept.
pub draw_freetype_bitmap-shaded :
    (f : Canvas) (bitmap : Bitmap) (x y : ℤ) (i j : ℕ) (mem : Store)
    → i < f.width
    → j < f.height
    → draw_freetype_bitmap f bitmap x y mem (j * f.width + i) ≡ (
        if covered x 0 bitmap.width i && covered y 0 bitmap.rows j
        then shaded f
            (bitmap.buffer (covered_by y j * bitmap.pitch + covered_by x i))
            (mem (j * f.width + i))
        else mem (j * f.width + i))
unfolding draw_freetype_bitmap
draw_freetype_bitmap-shaded f bitmap x y i j mem hi hj =
    draw_columns-here f bitmap i j hi hj x y bitmap.width 0 mem

index-lt_size : (w h i j : ℕ) → i < w → j < h → j * w + i < w * h
index-lt_size w h i j hi hj = grind arith

module _ (f : Canvas) (n : ℕ) (out : f.width * f.height ≤ n) where
  draw_pixel-outside :
      (bitmap : Bitmap) (p q : ℕ) (x y : ℤ) (mem : Store)
      → draw_pixel f bitmap p q x y mem n ≡ mem n
  unfolding draw_pixel
  draw_pixel-outside bitmap p q (pos a) (pos b) mem = ground (
    arith,
    index-lt_size f.width f.height a b,
    shade-at f (bitmap.buffer (q * bitmap.pitch + p)) (b * f.width + a) n mem,
  )
  draw_pixel-outside bitmap p q (pos a) (negsuc b) mem = ground arith
  draw_pixel-outside bitmap p q (negsuc a) y mem = refl

  draw_column-outside :
      (bitmap : Bitmap) (p : ℕ) (x y : ℤ) (left q : ℕ) (mem : Store)
      → draw_column f bitmap p x y left q mem n ≡ mem n
  unfolding draw_column
  draw_column-outside bitmap p x y zero q mem = refl
  draw_column-outside bitmap p x y (suc left) q mem =
      draw_column-outside bitmap p x y left (q + 1) (draw_pixel f bitmap p q x (y +ℤ pos q) mem)
      ∙ draw_pixel-outside bitmap p q x (y +ℤ pos q) mem

  draw_columns-outside :
      (bitmap : Bitmap) (x y : ℤ) (left p : ℕ) (mem : Store)
      → draw_columns f bitmap x y left p mem n ≡ mem n
  unfolding draw_columns
  draw_columns-outside bitmap x y zero p mem = refl
  draw_columns-outside bitmap x y (suc left) p mem =
      draw_columns-outside bitmap x y left (p + 1)
        (draw_column f bitmap p (x +ℤ pos p) y bitmap.rows 0 mem)
      ∙ draw_column-outside bitmap p (x +ℤ pos p) y bitmap.rows 0 mem

  draw_text-outside :
      (face : ℕ → Glyph) (line ox : ℤ) (s : List ℕ) (x y : ℤ) (mem : Store)
      → draw_text f face line ox s x y mem n ≡ mem n
  unfolding draw_text draw_freetype_bitmap
  draw_text-outside face line ox [] x y mem = refl
  draw_text-outside face line ox (c ∷ s) x y mem =
      let glyph = face c in
      let at_x = x +ℤ glyph.left in
      let at_y = y -ℤ glyph.top in
      ground (
        arith,
        draw_text-outside face line ox s ox (y +ℤ line) mem,
        draw_text-outside face line ox s (x +ℤ glyph.advance) y
            (draw_columns f glyph.bitmap at_x at_y glyph.bitmap.width 0 mem),
        draw_columns-outside glyph.bitmap at_x at_y glyph.bitmap.width 0 mem,
      )

-- Whatever is printed, wherever, and whatever the glyphs are, no byte outside the canvas is written.
pub font_printw-outside :
    (f : Canvas) (face : ℕ → Glyph) (line : ℤ) (x y : ℕ) (string : List ℕ) (mem : Store) (n : ℕ)
    → f.width * f.height ≤ n
    → font_printw f face line x y string mem n ≡ mem n
unfolding font_printw
font_printw-outside f face line x y string mem n out =
    let o = font_overscan_map f x y in
    draw_text-outside f n out face line (pos (o.0)) string (pos (o.0)) (pos (o.1)) mem

-- Of a text in which no newline stands.
abbrev pub IsLine : List ℕ → Type 0
IsLine [] = Unit
IsLine (c ∷ s) = (c ≢ 10) × IsLine s

-- A text behind the first newline is printed where the first line began, one line further down, on top
-- of the first line.
pub draw_text-append :
    (f : Canvas) (face : ℕ → Glyph) (line ox : ℤ) (s t : List ℕ) (x y : ℤ) (mem : Store)
    → IsLine s
    → draw_text f face line ox (s ++ 10 ∷ t) x y mem
      ≡ draw_text f face line ox t ox (y +ℤ line) (draw_text f face line ox s x y mem)
unfolding draw_text
draw_text-append f face line ox [] t x y mem h = refl
draw_text-append f face line ox (c ∷ s) t x y mem h =
    let glyph = face c in
    ground (
      arith,
      draw_text-append f face line ox s t (x +ℤ glyph.advance) y
          (draw_freetype_bitmap f glyph.bitmap (x +ℤ glyph.left) (y -ℤ glyph.top) mem) h.1,
    )
