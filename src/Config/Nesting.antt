-- ===== src/Config/Nesting.antt =====
-- src/config.c: files that name no other file in a circle are read to the end.
use moonlight_wii.Prelude.{
  ℕ, ◌<◌, leb, ◌≡◌, refl, sym, ap, ◌∙◌, Bool, true, ◌&&◌, Option, none, some, List, [], ◌∷◌, length,
  Bool-cases, ◌==◌, if◌then◌else◌, and-true,
}
use moonlight_wii.Prelude.Text.{Bytes, codes, str_eq, str_eq→≡}
use moonlight_wii.Config.{max_inputs}
use moonlight_wii.Config.Scan.{scan_pair, lines_of}
use moonlight_wii.Config.Parse.{
  then_parse, add_input, add_positional, parse_argument, or_exit, LongOption, try_option,
  try_options, long_options, parse_pair,
}
pub mod Options
unfoldable pub use Options.*

-- What a line that can be read names with "config" has a rank below the bound.
abbrev pub NamesBelow : (Bytes → ℕ) → ℕ → Option (Bytes × Bytes) → Type 0
NamesBelow rank bound none = Unit
NamesBelow rank bound (some p) = str_eq (codes "config") p.0 ≡ true → rank p.1 < bound

abbrev pub AllNameBelow : (Bytes → ℕ) → ℕ → List Bytes → Type 0
AllNameBelow rank bound [] = Unit
AllNameBelow rank bound (line ∷ lines) =
    NamesBelow rank bound (scan_pair line) × AllNameBelow rank bound lines

-- Every file has a rank above those of the files that it names: they name one another in no circle.
abbrev pub IsRanked : (Bytes → Option Bytes) → (Bytes → ℕ) → Type 0
IsRanked files rank =
    (name text : Bytes)
    → files name ≡ some text
    → AllNameBelow rank (rank name) (lines_of (length text) text)
