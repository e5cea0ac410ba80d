-- ===== src/Config/Lines.antt =====
-- src/config.c: what `config_file_parse` makes of the lines that `config_save` writes.
use moonlight_wii.Prelude.{
  ℕ, zero, suc, ◌+◌, ◌≤◌, ◌<◌, ◌≡◌, refl, ap, ap₂, ◌∙◌, Bool, true, false, not, ◌&&◌, some, List,
  [], ◌∷◌, ◌++◌, append_assoc, ◌==◌, length, length-append, arith,
}
use moonlight_wii.Prelude.Text.{Bytes, codes}
use moonlight_wii.Prelude.Decimal.{is_space, skip_spaces}
use moonlight_wii.Config.{Configuration}
use moonlight_wii.Config.Scan.{
  get_line, lines_of, scan_word, scan_rest, non_empty, scan_value, both, scan_pair,
}
use moonlight_wii.Config.Parse.{
  Parsed, parsed, cannot_open, exited, too_deep, then_parse, parse_pair, parse_line, parse_lines,
}
use moonlight_wii.Config.Save.{Entry, print_entry, print_entries}

unfoldable pub has_no_newline : Bytes → Bool
has_no_newline [] = true
has_no_newline (c ∷ cs) = not (c == 10) && has_no_newline cs

unfoldable pub has_no_space : Bytes → Bool
has_no_space [] = true
has_no_space (c ∷ cs) = not (is_space c) && has_no_space cs

abbrev pub starts_plain : Bytes → Bool
starts_plain [] = false
starts_plain (c ∷ cs) = not (is_space c)

-- A key or a value that a line of the file can hold.
pub record IsKey (s : Bytes) : Type 0 where
  pub no_space : has_no_space s ≡ true
  pub short : length s < 1023
  pub starts : starts_plain s ≡ true

pub record IsPlain (s : Bytes) : Type 0 where
  pub no_newline : has_no_newline s ≡ true
  pub short : length s ≤ 4095
  pub starts : starts_plain s ≡ true

pub has_no_newline-append :
    (s t : Bytes)
    → has_no_newline s ≡ true
    → has_no_newline t ≡ true
    → has_no_newline (s ++ t) ≡ true
unfolding has_no_newline
has_no_newline-append [] t hs ht = ht
has_no_newline-append (c ∷ s) t hs ht = ground (arith, has_no_newline-append s t)

has_no_space→newline : (s : Bytes) → has_no_space s ≡ true → has_no_newline s ≡ true
unfolding has_no_newline has_no_space
has_no_space→newline [] h = refl
has_no_space→newline (c ∷ s) h = ground (arith, has_no_space→newline s)

get_line-append :
    (s rest : Bytes) → has_no_newline s ≡ true → get_line (s ++ 10 ∷ rest) ≡ (s ++ 10 ∷ [], rest)
unfolding get_line has_no_newline
get_line-append [] rest h = refl
get_line-append (c ∷ s) rest h = ground (arith, get_line-append s rest)

scan_word-append :
    (n : ℕ) (s rest : Bytes)
    → length s < n
    → has_no_space s ≡ true
    → scan_word n (s ++ 32 ∷ rest) ≡ (s, 32 ∷ rest)
unfolding scan_word has_no_space
scan_word-append zero s rest h k = elim h [ ]
scan_word-append (suc n) [] rest h k = refl
scan_word-append (suc n) (c ∷ s) rest h k = ground (arith, scan_word-append n s rest)

scan_rest-append :
    (n : ℕ) (s rest : Bytes)
    → length s ≤ n
    → has_no_newline s ≡ true
    → scan_rest n (s ++ 10 ∷ rest) ≡ s
unfolding scan_rest has_no_newline
scan_rest-append zero [] rest h k = refl
scan_rest-append zero (c ∷ s) rest h k = elim h [ ]
scan_rest-append (suc n) [] rest h k = refl
scan_rest-append (suc n) (c ∷ s) rest h k = ground (arith, scan_rest-append n s rest)

skip_spaces-plain : (s rest : Bytes) → starts_plain s ≡ true → skip_spaces (s ++ rest) ≡ s ++ rest
unfolding skip_spaces
skip_spaces-plain [] rest h = cc
skip_spaces-plain (c ∷ s) rest h = ground arith

non_empty-plain : (s : Bytes) → starts_plain s ≡ true → non_empty s ≡ some s
non_empty-plain [] h = cc
non_empty-plain (c ∷ s) h = refl

-- A line of the file.
abbrev line : Entry → Bytes
line e = e.0 ++ codes " = " ++ e.1 ++ 10 ∷ []

pub record IsEntry (e : Entry) : Type 0 where
  pub key : IsKey e.0
  pub value : IsPlain e.1

scan_value-line : (v : Bytes) → IsPlain v → scan_value (codes "= " ++ v ++ 10 ∷ []) ≡ some v
unfolding scan_value skip_spaces
scan_value-line v p =
    rw
      (
        skip_spaces-plain v (10 ∷ []) p.starts,
        scan_rest-append 4095 v [] p.short p.no_newline,
        non_empty-plain v p.starts,
      )
      refl

line_split : (e : Entry) → line e ≡ e.0 ++ (codes " = " ++ (e.1 ++ 10 ∷ []))
line_split e = append_assoc (e.0 ++ codes " = ") e.1 (10 ∷ []) ∙ append_assoc e.0 (codes " = ") _

-- sscanf gives back the key and the value of a line.
scan_pair-line : (e : Entry) → IsEntry e → scan_pair (line e) ≡ some e
unfolding scan_pair skip_spaces
scan_pair-line e p =
    let behind = codes " = " ++ (e.1 ++ 10 ∷ []) in
    ap scan_pair (line_split e)
    ∙ ap (λ s. let w = scan_word 1023 s in both (non_empty w.0) (scan_value (skip_spaces w.1)))
        (skip_spaces-plain e.0 behind p.key.starts)
    ∙ ap (λ w. both (non_empty w.0) (scan_value (skip_spaces w.1)))
        (scan_word-append 1023 e.0 (codes "= " ++ (e.1 ++ 10 ∷ [])) p.key.short p.key.no_space)
    ∙ ap₂ both (non_empty-plain e.0 p.key.starts) (scan_value-line e.1 p.value)

get_line-print_entry :
    (e : Entry) (rest : Bytes) → IsEntry e → get_line (print_entry e rest) ≡ (line e, rest)
get_line-print_entry e rest p = get_line-append (e.0 ++ codes " = " ++ e.1) rest (
    has_no_newline-append (e.0 ++ codes " = ") e.1
      (has_no_newline-append e.0 (codes " = ") (has_no_space→newline e.0 p.key.no_space)
        (unfold has_no_newline in refl))
      p.value.no_newline)

-- The lines of a file that begins with an entry.
lines_of-print_entry :
    (n : ℕ) (e : Entry) (rest : Bytes)
    → IsEntry e
    → lines_of (suc n) (print_entry e rest) ≡ line e ∷ lines_of n rest
unfolding lines_of
lines_of-print_entry n ([], v) rest p = cc (p.key.starts)
lines_of-print_entry n (c ∷ k, v) rest p =
    ap (λ l. l.0 ∷ lines_of n l.1) (get_line-print_entry (c ∷ k, v) rest p)

abbrev pub AreEntries : List Entry → Type 0
AreEntries [] = Unit
AreEntries (e ∷ es) = IsEntry e × AreEntries es

length-print_entry :
    (e : Entry) (es : List Entry)
    → length (print_entries (e ∷ es))
      ≡ length (e.0 ++ codes " = " ++ e.1) + suc (length (print_entries es))
length-print_entry e es = length-append (e.0 ++ codes " = " ++ e.1) (10 ∷ print_entries es)

then_parse-ext :
    (r : Parsed) {f g : Configuration → Parsed}
    → ((c : Configuration) → f c ≡ g c)
    → then_parse r f ≡ then_parse r g
then_parse-ext (parsed c) h = h c
then_parse-ext cannot_open h = refl
then_parse-ext exited h = refl
then_parse-ext too_deep h = refl

module _ (nested : Bytes → Configuration → Parsed) where
  -- What the entries of a file do in turn.
  unfoldable pub parse_entries : List Entry → Configuration → Parsed
  parse_entries [] c = parsed c
  parse_entries (e ∷ es) c = then_parse (parse_pair nested e.0 e.1 c) (parse_entries es)

  parse_line-line :
      (e : Entry) (c : Configuration)
      → IsEntry e
      → parse_line nested (line e) c ≡ parse_pair nested e.0 e.1 c
  unfolding parse_line
  parse_line-line e c p = rw (parse_line, scan_pair-line e p) refl

  -- A file that is made of entries is read as its entries in turn.
  pub parse_lines-print_entries :
      (n : ℕ) (es : List Entry) (c : Configuration)
      → AreEntries es
      → length (print_entries es) ≤ n
      → parse_lines nested (lines_of n (print_entries es)) c ≡ parse_entries es c
  unfolding parse_lines parse_entries
  parse_lines-print_entries zero [] c p h = unfold lines_of in refl
  parse_lines-print_entries (suc n) [] c p h = unfold lines_of in refl
  parse_lines-print_entries zero (e ∷ es) c p h = absurd (omega (arith, length-print_entry e es))
  parse_lines-print_entries (suc n) (e ∷ es) c p h =
      ap (λ ls. parse_lines nested ls c) (lines_of-print_entry n e (print_entries es) p.0)
      ∙ ap (λ r. then_parse r (parse_lines nested (lines_of n (print_entries es))))
          (parse_line-line e c p.0)
      ∙ then_parse-ext (parse_pair nested e.0 e.1 c)
          (λ d. parse_lines-print_entries n es d p.1 (omega (arith, length-print_entry e es)))
