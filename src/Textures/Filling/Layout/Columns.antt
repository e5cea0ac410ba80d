-- ===== src/Textures/Filling/Layout/Columns.antt =====
-- src/wii/gx_video.c: the moves of the columns of four lines, in the left and in the right texture.
use moonlight_wii.Prelude.{
  ℕ, zero, suc, ◌+◌, ◌-◌, ◌*◌, ◌/◌, ◌%◌, ◌≤◌, ◌<◌, ◌≡◌, refl, ap, ap₂, ◌∙◌, List, [], ◌∷◌, ◌++◌,
  if◌then◌else◌, ltb, arith, lt→ltb, false,
}
use moonlight_wii.Textures.{Sizes}
use moonlight_wii.Textures.Filling.{Side, left, right, Move, copy_tile, copy_tiles}

-- Ylwidth and Yrwidth
unfoldable pub left_width : Sizes → ℕ
left_width s = if ltb 1016 s.ywidth then 1024 else s.ywidth

unfoldable pub right_width : Sizes → ℕ
right_width s = if ltb 1024 s.ywidth then s.ywidth - 1016 + 8 else 8

-- The word that the texture unit reads for eight pixels of line `y`, in column `c` of a texture of this
-- many columns: its tiles have four lines of a word each.
unfoldable pub texel_word : ℕ → ℕ → ℕ → ℕ
texel_word columns y c = (y / 4 * columns + c) * 4 + y % 4

-- Where the pixels 8 * c to 8 * c + 7 of line `y` belong: in the left texture, or behind the first column
-- of the right one.
unfoldable pub placed : Sizes → ℕ → ℕ → ℕ → Move
placed s stride y c =
    if ltb c s.wl
    then record { side = left; word = texel_word (left_width s / 8) y c; from = y * stride + c * 8 }
    else record {
      side = right;
      word = texel_word (right_width s / 8) y (c - s.wl + 1);
      from = y * stride + c * 8;
    }

-- The columns from `c` on of four lines, and the groups of four lines from number `k` on.
unfoldable pub columns : Sizes → ℕ → ℕ → ℕ → ℕ → List Move
unfolding placed
columns s stride k zero c = []
columns s stride k (suc n) c =
    placed s stride (4 * k) c
    ∷ placed s stride (4 * k + 1) c
    ∷ placed s stride (4 * k + 2) c
    ∷ placed s stride (4 * k + 3) c
    ∷ columns s stride k n (c + 1)

unfoldable pub lines : Sizes → ℕ → ℕ → ℕ → List Move
unfolding columns
lines s stride zero k = []
lines s stride (suc n) k = columns s stride k (s.ywidth / 8) 0 ++ lines s stride n (k + 1)

line_start : (k j c stride : ℕ) → (4 * k + j) * stride + c * 8 ≡ 4 * k * stride + c * 8 + stride * j
line_start k j c stride = grind arith

texel_word_lem : (w k j c : ℕ) → j < 4 → texel_word w (4 * k + j) c ≡ (k * w + c) * 4 + j
unfolding texel_word
texel_word_lem w k j c h =
    let q : (4 * k + j) / 4 ≡ k = omega arith in
    let m : (4 * k + j) % 4 ≡ j = omega arith in rw (q, m) refl

suc_add : (n m : ℕ) → suc (n + m) ≡ suc n + m
suc_add n m = omega arith

pub next_row : (k x : ℕ) → (k + 1) * x * 4 ≡ k * x * 4 + x * 4
next_row k x = grind arith

pub next_row_right : (k x : ℕ) → ((k + 1) * x + 1) * 4 ≡ (k * x + 1) * 4 + x * 4
next_row_right k x = grind arith

pub next_lines : (k stride : ℕ) → 4 * (k + 1) * stride ≡ 4 * k * stride + stride * 4
next_lines k stride = grind arith

abbrev move : Side → ℕ → ℕ → Move
move side word from = record { side = side; word = word; from = from }

module _ (s : Sizes) (stride : ℕ) where
  placed-left :
      (k j c : ℕ)
      → j < 4
      → c < s.wl
      → placed s stride (4 * k + j) c
        ≡ move left ((k * (left_width s / 8) + c) * 4 + j) (4 * k * stride + c * 8 + stride * j)
  unfolding placed
  placed-left k j c h hc =
      rw (placed, lt→ltb c s.wl hc)
        (ap₂ (move left) (texel_word_lem (left_width s / 8) k j c h) (line_start k j c stride))

  placed-right :
      (k j d : ℕ)
      → j < 4
      → placed s stride (4 * k + j) (s.wl + d)
        ≡ move right
            ((k * (right_width s / 8) + (d + 1)) * 4 + j)
            (4 * k * stride + (s.wl + d) * 8 + stride * j)
  unfolding placed
  placed-right k j d h =
      let behind : s.wl + d - s.wl ≡ d = omega arith in
      let off : ltb (s.wl + d) s.wl ≡ false = ground arith in
      rw (placed, off, behind)
        (ap₂ (move right) (texel_word_lem (right_width s / 8) k j (d + 1) h)
          (line_start k j (s.wl + d) stride))

  abbrev column : ℕ → ℕ → List Move → List Move
  column k c rest =
      placed s stride (4 * k) c
      ∷ placed s stride (4 * k + 1) c
      ∷ placed s stride (4 * k + 2) c
      ∷ placed s stride (4 * k + 3) c
      ∷ rest

  -- A tile is a column of four lines, where its four words and their sources are.
  column-copy_tile :
      (side : Side) (k c word src : ℕ) (rest rest' : List Move)
      → ((j : ℕ) → j < 4 → placed s stride (4 * k + j) c ≡ move side (word + j) (src + stride * j))
      → rest ≡ rest'
      → copy_tile side stride word src ++ rest ≡ column k c rest'
  unfolding copy_tile
  column-copy_tile side k c word src rest rest' at e =
      let first : placed s stride (4 * k) c ≡ move side word src =
        ap (λ (y : ℕ). placed s stride y c) (omega arith)
        ∙ at 0 (omega arith)
        ∙ ap₂ (move side) (omega arith) (omega arith) in
      let second : placed s stride (4 * k + 1) c ≡ move side (word + 1) (src + stride) =
        at 1 (omega arith) ∙ ap (move side (word + 1)) (omega arith) in
      cc (first, second, at 2 (omega arith), at 3 (omega arith), e)

  pub columns-left :
      (k n c word src : ℕ)
      → c + n ≤ s.wl
      → word ≡ (k * (left_width s / 8) + c) * 4
      → src ≡ 4 * k * stride + c * 8
      → copy_tiles left stride n word src ≡ columns s stride k n c
  unfolding copy_tiles columns
  columns-left k zero c word src h e f = refl
  columns-left k (suc n) c word src h e f =
      column-copy_tile left k c word src _ _
        (λ j hj. placed-left k j c hj (omega arith) ∙ ap₂ (move left) (omega arith) (omega arith))
        (columns-left k n (c + 1) (word + 4) (src + 8) (omega arith) (omega arith) (omega arith))

  pub columns-right :
      (k n d word src : ℕ)
      → word ≡ (k * (right_width s / 8) + (d + 1)) * 4
      → src ≡ 4 * k * stride + (s.wl + d) * 8
      → copy_tiles right stride n word src ≡ columns s stride k n (s.wl + d)
  unfolding copy_tiles columns
  columns-right k zero d word src e f = refl
  columns-right k (suc n) d word src e f =
      column-copy_tile right k (s.wl + d) word src _ _
        (λ j hj. placed-right k j d hj ∙ ap₂ (move right) (omega arith) (omega arith))
        (columns-right k n (d + 1) (word + 4) (src + 8) (omega arith) (omega arith)
          ∙ ap (columns s stride k n) (omega arith))

  pub columns-append :
      (k n m c : ℕ)
      → columns s stride k n c ++ columns s stride k m (c + n) ≡ columns s stride k (n + m) c
  unfolding columns
  columns-append k zero m c = ap₂ (columns s stride k) (omega arith) (omega arith)
  columns-append k (suc n) m c =
      ap (column k c) (
        ap (λ (e : ℕ). columns s stride k n (c + 1) ++ columns s stride k m e) (omega arith)
        ∙ columns-append k n m (c + 1))
      ∙ ap (λ (e : ℕ). columns s stride k e c) (suc_add n m)
