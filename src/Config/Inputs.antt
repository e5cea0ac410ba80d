-- ===== src/Config/Inputs.antt =====
-- src/config.c: the inputs never outgrow their array.
use moonlight_wii.Prelude.{
  ℕ, zero, suc, ◌≤◌, ◌≡◌, Option, none, some, List, [], ◌∷◌, length, length-append, arith,
  Bool-cases, inl, inr, leb, ◌==◌, Option-cases,
}
use moonlight_wii.Prelude.Text.{Bytes, codes, str_eq}
use moonlight_wii.Config.{Configuration, max_inputs}
use moonlight_wii.Config.Scan.{scan_pair, lines_of}
use moonlight_wii.Config.Parse.{
  Parsed, parsed, cannot_open, exited, too_deep, then_parse, parse_flag, parse_value, set_remote,
  set_surround, set_codec, set_encryption, add_input, add_positional, parse_argument, or_exit,
  LongOption, try_option, try_options, long_options, parse_pair, parse_line, parse_lines,
  config_file_parse,
}

-- At most MAX_INPUTS inputs.
unfoldable pub InputsFit : Configuration → Type 0
InputsFit c = length c.inputs ≤ max_inputs

-- Where a call returns, it returns with a configuration that does.
unfoldable pub Keeps : (Configuration → Type 0) → Parsed → Type 0
Keeps P (parsed c) = P c
Keeps P cannot_open = Unit
Keeps P exited = Unit
Keeps P too_deep = Unit

parse_flag-inputs : (o : ℕ) (c : Configuration) → (parse_flag o c).inputs ≡ c.inputs
unfolding parse_flag
parse_flag-inputs o c = ground arith

parse_value-inputs : (o : ℕ) (v : Bytes) (c : Configuration) → (parse_value o v c).inputs ≡ c.inputs
unfolding parse_value set_remote set_surround set_codec set_encryption
parse_value-inputs o v c = ground arith

set_inputs : (c d : Configuration) → d.inputs ≡ c.inputs → InputsFit c → InputsFit d
unfolding InputsFit
set_inputs c d e h = rw e h

add_input-InputsFit : (v : Bytes) (c : Configuration) → Keeps InputsFit (add_input v c)
unfolding add_input Keeps InputsFit
add_input-InputsFit v c = elim (Bool-cases (leb max_inputs (length c.inputs))) [
  | inl full ↦ rw (add_input, full) tt
  | inr room ↦ rw (add_input, room) (rw (length-append c.inputs (v ∷ [])) (ground arith))
]

add_positional-InputsFit :
    (v : Bytes) (c : Configuration) → InputsFit c → Keeps InputsFit (add_positional v c)
unfolding add_positional Keeps InputsFit
add_positional-InputsFit v c h = elim (Option-cases c.action) [
  | inl e ↦ rw (add_positional, e) h
  | inr (a, e) ↦ elim (Option-cases c.address) [
    | inl k ↦ rw (add_positional, e, k) h
    | inr (b, k) ↦ rw (add_positional, e, k) tt
  ]
]

Keeps-then_parse :
    {P : Configuration → Type 0} (r : Parsed) (k : Configuration → Parsed)
    → Keeps P r
    → ((c : Configuration) → P c → Keeps P (k c))
    → Keeps P (then_parse r k)
unfolding Keeps
Keeps-then_parse (parsed c) k h step = step c h
Keeps-then_parse cannot_open k h step = tt
Keeps-then_parse exited k h step = tt
Keeps-then_parse too_deep k h step = tt

or_exit-InputsFit : (r : Parsed) → Keeps InputsFit r → Keeps InputsFit (or_exit r)
unfolding Keeps
or_exit-InputsFit (parsed c) h = h
or_exit-InputsFit cannot_open h = tt
or_exit-InputsFit exited h = tt
or_exit-InputsFit too_deep h = tt

abbrev FileInputsFit : (Bytes → Configuration → Parsed) → Type 0
FileInputsFit f = (v : Bytes) (c : Configuration) → InputsFit c → Keeps InputsFit (f v c)

module _ (nested : Bytes → Configuration → Parsed) (nested-InputsFit : FileInputsFit nested) where
  flag_lem : (o : ℕ) (c : Configuration) → InputsFit c → InputsFit (parse_flag o c)
  flag_lem o c h = set_inputs c _ (parse_flag-inputs o c) h

  value_lem :
      (o : ℕ) (v : Bytes) (c : Configuration)
      → InputsFit c
      → InputsFit (parse_flag o (parse_value o v c))
  value_lem o v c h = flag_lem o _ (set_inputs c _ (parse_value-inputs o v c) h)

  parse_argument-InputsFit :
      (o : ℕ) (v : Option Bytes) (c : Configuration)
      → InputsFit c
      → Keeps InputsFit (parse_argument nested o v c)
  unfolding parse_argument Keeps
  parse_argument-InputsFit o none c h = flag_lem o c h
  parse_argument-InputsFit o (some v) c h = elim (Bool-cases (o == b'j')) [
    | inl e ↦ rw (parse_argument, e) (add_input-InputsFit v c)
    | inr e ↦ elim (Bool-cases (o == b'o')) [
      | inl f ↦ rw (parse_argument, e, f) (or_exit-InputsFit (nested v c) (nested-InputsFit v c h))
      | inr f ↦ elim (Bool-cases (o == 1)) [
        | inl g ↦ rw (parse_argument, e, f, g) (add_positional-InputsFit v c h)
        | inr g ↦ rw (parse_argument, e, f, g) (value_lem o v c h)
      ]
    ]
  ]

  try_option-InputsFit :
      (o : LongOption) (key value : Bytes) (c : Configuration)
      → InputsFit c
      → Keeps InputsFit (try_option nested o key value c)
  unfolding try_option Keeps
  try_option-InputsFit o key value c h = elim (Bool-cases (str_eq o.name key)) [
    | inl e ↦ elim (Bool-cases o.has_arg) [
      | inl f ↦ rw (try_option, e, f) (parse_argument-InputsFit o.val (some value) c h)
      | inr f ↦ elim (Bool-cases (str_eq (codes "true") value)) [
        | inl g ↦ rw (try_option, e, f, g) (parse_argument-InputsFit o.val none c h)
        | inr g ↦ rw (try_option, e, f, g) h
      ]
    ]
    | inr e ↦ rw (try_option, e) h
  ]

  try_options-InputsFit :
      (os : List LongOption) (key value : Bytes) (c : Configuration)
      → InputsFit c
      → Keeps InputsFit (try_options nested os key value c)
  unfolding try_options Keeps
  try_options-InputsFit [] key value c h = h
  try_options-InputsFit (o ∷ os) key value c h =
      Keeps-then_parse (try_option nested o key value c) (try_options nested os key value)
        (try_option-InputsFit o key value c h) (try_options-InputsFit os key value)

  parse_pair-InputsFit :
      (key value : Bytes) (c : Configuration)
      → InputsFit c
      → Keeps InputsFit (parse_pair nested key value c)
  unfolding parse_pair Keeps InputsFit
  parse_pair-InputsFit key value c h = elim (Bool-cases (str_eq key (codes "address"))) [
    | inl e ↦ rw (parse_pair, e) h
    | inr e ↦ elim (Bool-cases (str_eq key (codes "sops"))) [
      | inl f ↦ rw (parse_pair, e, f) h
      | inr f ↦ rw (parse_pair, e, f) (try_options-InputsFit long_options key value c h)
    ]
  ]

  parse_line-InputsFit :
      (line : Bytes) (c : Configuration) → InputsFit c → Keeps InputsFit (parse_line nested line c)
  unfolding parse_line Keeps
  parse_line-InputsFit line c h = elim (Option-cases (scan_pair line)) [
    | inl e ↦ rw (parse_line, e) h
    | inr (p, e) ↦ rw (parse_line, e) (parse_pair-InputsFit p.0 p.1 c h)
  ]

  parse_lines-InputsFit :
      (lines : List Bytes) (c : Configuration)
      → InputsFit c
      → Keeps InputsFit (parse_lines nested lines c)
  unfolding parse_lines Keeps
  parse_lines-InputsFit [] c h = h
  parse_lines-InputsFit (l ∷ ls) c h =
      Keeps-then_parse (parse_line nested l c) (parse_lines nested ls) (parse_line-InputsFit l c h)
        (parse_lines-InputsFit ls)

-- However the files are nested: where the configuration starts with at most MAX_INPUTS inputs and
-- `config_file_parse` returns, it still has at most that many, so that no input is stored out of bounds.
pub config_file_parse-InputsFit :
    (files : Bytes → Option Bytes) (depth : ℕ) (name : Bytes) (c : Configuration)
    → InputsFit c
    → Keeps InputsFit (config_file_parse files depth name c)
unfolding config_file_parse Keeps
config_file_parse-InputsFit files zero name c h = tt
config_file_parse-InputsFit files (suc depth) name c h = elim (Option-cases (files name)) [
  | inl e ↦ rw (config_file_parse, e) tt
  | inr (text, e) ↦
      rw (config_file_parse, e)
        (parse_lines-InputsFit (config_file_parse files depth)
          (config_file_parse-InputsFit files depth) (lines_of (length text) text) c h)
]
