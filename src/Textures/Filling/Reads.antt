-- ===== src/Textures/Filling/Reads.antt =====
-- src/wii/gx_video.c: what the luma loop reads of the plane of a frame buffer.
use moonlight_wii.Prelude.{
  ℕ, zero, suc, ◌+◌, ◌-◌, ◌*◌, ◌/◌, ◌%◌, ◌≤◌, ◌<◌, ◌≡◌, ◌↔◌, sym, ap, ◌∙◌, List, [], ◌∷◌, ◌++◌,
  length, arith,
}
use mathlib.Core.Path.{subst}
use native.Mathlib.Nat.{mul_comm}
use native.Mathlib.Decide.{dec_lt}
use moonlight_wii.Decode.{Frame, round_up8}
use moonlight_wii.Decode.Copy.{IsAllocated}
use moonlight_wii.Textures.{Sizes, config_yuv}
use moonlight_wii.Textures.Filling.{Move, luma_copy}
use moonlight_wii.Textures.Filling.Layout.{placed, columns, lines, luma_copy-lines}

-- Every word is read within a plane of this size.
abbrev pub ReadsWithin : ℕ → List Move → Type 0
ReadsWithin size [] = Unit
ReadsWithin size (m ∷ moves) = (m.from + 8 ≤ size) × ReadsWithin size moves

ReadsWithin-append :
    (size : ℕ) (a b : List Move)
    → ReadsWithin size a
    → ReadsWithin size b
    → ReadsWithin size (a ++ b)
ReadsWithin-append size [] b h k = k
ReadsWithin-append size (m ∷ a) b h k = (h.0, ReadsWithin-append size a b h.1 k)

ReadsWithin-split :
    (size : ℕ) (a b : List Move)
    → ReadsWithin size (a ++ b)
    → ReadsWithin size a × ReadsWithin size b
ReadsWithin-split size [] b h = (tt, h)
ReadsWithin-split size (m ∷ a) b h = let r = ReadsWithin-split size a b h.1 in ((h.0, r.0), r.1)

from-placed : (s : Sizes) (stride y c : ℕ) → (placed s stride y c).from ≡ y * stride + c * 8
unfolding placed
from-placed s stride y c = ground arith

line_le :
    (y c stride n size : ℕ)
    → c * 8 + 8 ≤ stride
    → y < n
    → n * stride ≤ size
    → y * stride + c * 8 + 8 ≤ size
line_le y c stride n size h k e = grind arith

rows_le : (k m stride size : ℕ) → 4 * (k + suc m) * stride ≤ size → (4 * k + 4) * stride ≤ size
rows_le k m stride size e = grind arith

rows_same :
    (k n stride size : ℕ) → 4 * (k + suc n) * stride ≤ size → 4 * (k + 1 + n) * stride ≤ size
rows_same k n stride size e = let same : k + 1 + n ≡ k + suc n = omega arith in rw same e

module _ (s : Sizes) (stride size : ℕ) where
  columns-ReadsWithin :
      (k n c : ℕ)
      → (c + n) * 8 ≤ stride
      → (4 * k + 4) * stride ≤ size
      → ReadsWithin size (columns s stride k n c)
  unfolding columns
  columns-ReadsWithin k zero c h e = tt
  columns-ReadsWithin k (suc n) c h e =
      let read : (y : ℕ) → y < 4 * k + 4 → (placed s stride y c).from + 8 ≤ size = λ y below.
        omega (
          arith,
          from-placed s stride y c,
          line_le y c stride (4 * k + 4) size (omega arith) below e,
        ) in
      let rest = columns-ReadsWithin k n (c + 1) (omega arith) e in
      (
        read (4 * k) (omega arith),
        (
          read (4 * k + 1) (omega arith),
          (read (4 * k + 2) (omega arith), (read (4 * k + 3) (omega arith), rest)),
        ),
      )

  lines-ReadsWithin :
      (n k : ℕ)
      → s.ywidth ≤ stride
      → 4 * (k + n) * stride ≤ size
      → ReadsWithin size (lines s stride n k)
  unfolding lines
  lines-ReadsWithin zero k h e = tt
  lines-ReadsWithin (suc n) k h e =
      ReadsWithin-append size (columns s stride k (s.ywidth / 8) 0) (lines s stride n (k + 1))
        (columns-ReadsWithin k (s.ywidth / 8) 0 (omega arith) (rows_le k n stride size e))
        (lines-ReadsWithin n (k + 1) h (rows_same k n stride size e))

  last_column :
      (k n : ℕ)
      → 0 < n
      → ReadsWithin size (columns s stride k n 0)
      → (4 * k + 3) * stride + 8 ≤ size
  unfolding columns
  last_column k zero h r = absurd (omega arith)
  last_column k (suc n) h r = omega (arith, from-placed s stride (4 * k + 3) 0, r.1.1.1.0)

  last_line :
      (n k : ℕ)
      → 8 ≤ s.ywidth
      → 0 < n
      → ReadsWithin size (lines s stride n k)
      → (4 * (k + n) - 1) * stride + 8 ≤ size
  unfolding lines
  last_line zero k h p r = absurd (omega arith)
  last_line (suc zero) k h p r =
      let c : (4 * k + 3) * stride + 8 ≤ size =
        last_column k (s.ywidth / 8) (omega arith) (ReadsWithin-split size _ _ r).0 in
      let e : 4 * (k + 1) - 1 ≡ 4 * k + 3 = omega arith in rw e c
  last_line (suc (suc n)) k h p r =
      let c : (4 * (k + 1 + suc n) - 1) * stride + 8 ≤ size =
        last_line (suc n) (k + 1) h (omega arith) (ReadsWithin-split size _ _ r).1 in
      let e : k + suc (suc n) ≡ k + 1 + suc n = omega arith in rw e c

padded_width :
    (width height : ℕ) → width ≤ 16384 → (config_yuv width height).ywidth ≡ round_up8 width
unfolding config_yuv round_up8
padded_width width height h = omega arith

padded_height :
    (width height : ℕ) → height ≤ 65532 → (config_yuv width height).yheight ≡ (height + 3) / 4 * 4
unfolding config_yuv
padded_height width height h = omega arith

round_up8_bounds :
    (width : ℕ) → 0 < width → width ≤ 16384 → (8 ≤ round_up8 width) × (round_up8 width ≤ 16384)
unfolding round_up8
round_up8_bounds width h k = omega arith

product_le : (a b c : ℕ) → a ≤ b → a * c ≤ b * c
product_le a b c h = grind arith

-- For a picture of at most 16384 by 65532 pixels: the luma plane of a frame buffer of its size holds all
-- that the copying loop reads of it exactly where the height is a multiple of four.
pub luma_copy-ReadsWithin :
    (width height : ℕ) (fb : Frame)
    → 0 < width
    → width ≤ 16384
    → 0 < height
    → height ≤ 65532
    → IsAllocated width height fb
    → ReadsWithin (length fb.y) (luma_copy (config_yuv width height) fb.ystride) ↔ (height % 4 ≡ 0)
luma_copy-ReadsWithin width height fb pw hw ph hh v =
    let s = config_yuv width height in
    let n = s.yheight / 4 in
    let bounds = round_up8_bounds width pw hw in
    let wide : s.ywidth ≡ fb.ystride = padded_width width height hw ∙ sym v.ystride_is in
    let tall = padded_height width height hh in
    let stride : fb.ystride ≡ round_up8 width = v.ystride_is in
    let size : length fb.y ≡ height * fb.ystride =
      v.y_size ∙ mul_comm (round_up8 width) height ∙ ap (λ (k : ℕ). height * k) (sym stride) in
    let copied =
      luma_copy-lines width height fb.ystride (omega (arith, wide))
        (omega (arith, wide, stride, bounds)) in
    (
      λ r. elim (dec_lt 0 (height % 4)) [
        | yes left_over ↦
            let last =
              last_line s fb.ystride (length fb.y) n 0 (omega (arith, wide, stride, bounds))
                (omega (arith, tall)) (subst (ReadsWithin (length fb.y)) copied r) in
            let below = product_le height (4 * (0 + n) - 1) fb.ystride (omega (arith, tall)) in
            absurd (omega (arith, last, below, size))
        | no whole ↦ omega arith
      ],
      λ e.
          let fits = product_le (4 * (0 + n)) height fb.ystride (omega (arith, tall, e)) in
          subst (ReadsWithin (length fb.y)) (sym copied) (
            lines-ReadsWithin s fb.ystride (length fb.y) n 0 (omega (arith, wide))
              (omega (arith, fits, size))),
    )
