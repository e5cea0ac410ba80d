-- ===== src/Config/Scan.antt =====
-- src/config.c: what `getline` and sscanf(line, "%1023s = %4095[^\n]", key, value) make of a file.
use moonlight_wii.Prelude.{ℕ, zero, suc, Option, none, some, List, [], ◌∷◌, ◌==◌, if◌then◌else◌}
use moonlight_wii.Prelude.Text.{Bytes}
use moonlight_wii.Prelude.Decimal.{is_space, skip_spaces}

-- The next line with its newline, and what is behind it.
unfoldable pub get_line : Bytes → Bytes × Bytes
get_line [] = ([], [])
get_line (c ∷ cs) =
    if c == 10 then (c ∷ [], cs) else let (line, rest) = get_line cs in (c ∷ line, rest)

-- The lines of a file; there are no more than it has characters.
unfoldable pub lines_of : ℕ → Bytes → List Bytes
lines_of zero text = []
lines_of (suc n) [] = []
lines_of (suc n) (c ∷ cs) = let (line, rest) = get_line (c ∷ cs) in line ∷ lines_of n rest

-- %1023s, behind the spaces that it skips: at most `n` characters that are no spaces.
unfoldable pub scan_word : ℕ → Bytes → Bytes × Bytes
scan_word zero s = ([], s)
scan_word (suc n) [] = ([], [])
scan_word (suc n) (c ∷ cs) =
    if is_space c then ([], c ∷ cs) else let (word, rest) = scan_word n cs in (c ∷ word, rest)

-- %4095[^\n]
unfoldable pub scan_rest : ℕ → Bytes → Bytes
scan_rest zero s = []
scan_rest (suc n) [] = []
scan_rest (suc n) (c ∷ cs) = if c == 10 then [] else c ∷ scan_rest n cs

abbrev pub non_empty : Bytes → Option Bytes
non_empty [] = none
non_empty (c ∷ s) = some (c ∷ s)

-- The part of the format behind the key.
unfoldable pub scan_value : Bytes → Option Bytes
unfolding scan_rest skip_spaces
scan_value [] = none
scan_value (c ∷ cs) = if c == b'=' then non_empty (scan_rest 4095 (skip_spaces cs)) else none

abbrev pub both : Option Bytes → Option Bytes → Option (Bytes × Bytes)
both (some key) (some value) = some (key, value)
both _ _ = none

-- Both conversions, or `none` where sscanf does not return 2.
unfoldable pub scan_pair : Bytes → Option (Bytes × Bytes)
unfolding scan_word scan_value skip_spaces
scan_pair line =
    let (word, rest) = scan_word 1023 (skip_spaces line) in
    both (non_empty word) (scan_value (skip_spaces rest))
