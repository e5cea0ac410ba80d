-- ===== src/Font/Overscan.antt =====
-- src/wii/font.c: where the margin of overscan puts the coordinates of the canvas.
use moonlight_wii.Prelude.{ℕ, ◌-◌, ◌*◌, ◌/◌, ◌≤◌, ◌<◌, arith}
use native.Mathlib.Nat.{div-lt_iff_lt-mul, le-div_iff_mul-le, div-mul-le_self}
use moonlight_wii.Font.{Canvas, overscan_map, font_overscan_map}

scaled-lt : (x s w : ℕ) → 0 < s → x < w → x * s / w < s
scaled-lt x s w some_width h = (div-lt_iff_lt-mul (omega arith)).1 (grind arith)

scaled-le : (x x' s w : ℕ) → 0 < w → x ≤ x' → x * s / w ≤ x' * s / w
scaled-le x x' s w some_width h =
    let below : x * s ≤ x' * s = grind arith in
    (le-div_iff_mul-le some_width).1 (omega (arith, div-mul-le_self (x * s) w))

-- A coordinate lies between the margins.
abbrev pub Between : ℕ → ℕ → ℕ → Type 0
Between m w x = (m ≤ x) × (x < w - m)

overscan_map-Between : (m w x : ℕ) → 2 * m < w → x < w → Between m w (overscan_map m w x)
unfolding overscan_map
overscan_map-Between m w x h k = ground (arith, scaled-lt x (w - 2 * m) w (omega arith) k)

overscan_map-le : (m w x x' : ℕ) → 0 < w → x ≤ x' → overscan_map m w x ≤ overscan_map m w x'
unfolding overscan_map
overscan_map-le m w x x' h k =
    ground (arith, scaled-le x x' (w - 2 * m) w h k, scaled-le x x' 1 w h k)

-- With margins that leave some of the canvas, two points of the canvas, the second not to the left of the
-- first and not above it, are mapped between the margins, and lie to each other as they did.
pub font_overscan_map-Between :
    (f : Canvas) (x x' y y' : ℕ)
    → 2 * f.overscan < f.width
    → 2 * f.overscan < f.height
    → x ≤ x'
    → x' < f.width
    → y ≤ y'
    → y' < f.height
    → Between f.overscan f.width (font_overscan_map f x y).0
      × Between f.overscan f.height (font_overscan_map f x y).1
      × ((font_overscan_map f x y).0 ≤ (font_overscan_map f x' y').0)
      × ((font_overscan_map f x y).1 ≤ (font_overscan_map f x' y').1)
unfolding font_overscan_map
font_overscan_map-Between f x x' y y' hw hh hx kx hy ky =
    let m = f.overscan in
    (
      ground (arith, overscan_map-Between m f.width x hw (omega arith)),
      ground (arith, overscan_map-Between m f.height y hh (omega arith)),
      ground (arith, overscan_map-le m f.width x x' (omega arith) hx),
      ground (arith, overscan_map-le m f.height y y' (omega arith) hy),
    )
