-- ===== src/Config/Laws.antt =====
-- src/config.c: what holds of every file that `config_file_parse` reads.
use moonlight_wii.Prelude.{◌≡◌, refl, ap, ◌∙◌, false, Option, none, some, ◌∷◌}
use moonlight_wii.Prelude.Text.{Bytes, codes}
use moonlight_wii.Config.{Configuration}
use moonlight_wii.Config.Scan.{scan_word, scan_value, scan_pair, both}
use moonlight_wii.Prelude.Decimal.{skip_spaces}
use moonlight_wii.Config.Parse.{Parsed, parsed, parse_pair, parse_line}

scan_pair-comment :
    (rest : Bytes)
    → scan_pair (b'#' ∷ rest)
      ≡ let w = scan_word 1022 rest in both (some (b'#' ∷ w.0)) (scan_value (skip_spaces w.1))
unfolding scan_pair scan_word skip_spaces
scan_pair-comment rest = refl

module _ (nested : Bytes → Configuration → Parsed) where
  comment_pair :
      (w : Bytes) (o : Option Bytes) (c : Configuration)
      → (elim (both (some (b'#' ∷ w)) o) [ none ↦ parsed c | some p ↦ parse_pair nested p.0 p.1 c ])
        ≡ parsed c
  unfolding parse_pair
  comment_pair w none c = refl
  comment_pair w (some v) c = refl

  -- A line that begins with '#' changes nothing.
  pub parse_line-comment :
      (rest : Bytes) (c : Configuration) → parse_line nested (b'#' ∷ rest) c ≡ parsed c
  unfolding parse_line
  parse_line-comment rest c =
      let w = scan_word 1022 rest in
      let o = scan_value (skip_spaces w.1) in
      ap (λ p. elim p [ none ↦ parsed c | some p ↦ parse_pair nested p.0 p.1 c ])
        (scan_pair-comment rest)
      ∙ comment_pair w.0 o c

module _ (nested : Bytes → Configuration → Parsed) where
  -- An entry "mapping" turns the optimal settings off, whatever its value is, and leaves the mapping as it
  -- was.
  pub parse_pair-mapping :
      (value : Bytes) (c : Configuration)
      → parse_pair nested (codes "mapping") value c ≡ parsed (record c { sops = false })
  unfolding parse_pair
  parse_pair-mapping value c = refl
