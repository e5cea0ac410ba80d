-- ===== src/Font/Shades.antt =====
-- src/wii/font.c: the bytes of the colour and of blended pixels.
use moonlight_wii.Prelude.{ℕ, ◌+◌, ◌-◌, ◌*◌, ◌/◌, ◌%◌, ◌≤◌, ◌≡◌, sym, ap, ◌∙◌, arith}
use native.Mathlib.Nat.{mul-add}
use moonlight_wii.Font.{Canvas, font_set_color, blend}

-- A number in a range.
abbrev pub Between : ℕ → ℕ → ℕ → Type 0
Between lo hi n = (lo ≤ n) × (n ≤ hi)

product_le : (a b c : ℕ) → a ≤ b → a * c ≤ b * c
product_le a b c h = grind arith

split : (n a : ℕ) → a ≤ 255 → n * a + n * (255 - a) ≡ n * 255
split n a h =
    let rest : a + (255 - a) ≡ 255 = omega arith in
    sym (mul-add n a (255 - a)) ∙ ap (λ (k : ℕ). n * k) rest

mixed :
    (lo hi luma old a : ℕ)
    → a ≤ 255
    → Between lo hi luma
    → Between lo hi old
    → Between lo hi ((luma * a + old * (255 - a)) / 255)
mixed lo hi luma old a h l o = omega (
  arith,
  split lo a h,
  split hi a h,
  product_le lo luma a l.0,
  product_le luma hi a l.1,
  product_le lo old (255 - a) o.0,
  product_le old hi (255 - a) o.1,
)

opacity_le : (alpha opacity : ℕ) → alpha ≤ 255 → opacity ≤ 255 → alpha * opacity / 255 ≤ 255
opacity_le alpha opacity h k = omega (arith, product_le alpha 255 opacity h)

-- A blended pixel stays between the shades that it is made of: in every range of bytes that holds the
-- byte below and the luma of the text, the byte written lies too. A text of full opacity has its own luma.
pub blend-Between :
    (lo hi luma alpha opacity old : ℕ)
    → hi ≤ 255
    → alpha ≤ 255
    → opacity ≤ 255
    → Between lo hi luma
    → Between lo hi old
    → Between lo hi (blend luma alpha opacity old) × (blend luma 255 255 old ≡ luma)
unfolding blend
blend-Between lo hi luma alpha opacity old top ha ho l o =
    let a = alpha * opacity / 255 in
    let small = opacity_le alpha opacity ha ho in
    let m = mixed lo hi luma old a small l o in
    let byte : a % 256 ≡ a = omega (arith, small) in
    (rw byte (omega (arith, m.0, m.1), omega (arith, m.0, m.1)), omega arith)

-- The luma of a colour lies in every range of bytes that holds its three parts.
pub font_set_color-Between :
    (lo hi r g b a : ℕ) (f : Canvas)
    → hi ≤ 255
    → Between lo hi r
    → Between lo hi g
    → Between lo hi b
    → Between lo hi (font_set_color r g b a f).luma
unfolding font_set_color
font_set_color-Between lo hi r g b a f top hr hg hb = omega arith
