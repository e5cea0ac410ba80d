-- ===== src/Config/Parse.antt =====
-- src/config.c: the long options, `config_file_parse` and `config_parse`, as built for the Wii. The child
-- Argument holds `parse_argument`.
use moonlight_wii.Prelude.{
  ℕ, zero, suc, Bool, true, false, Option, none, some, List, [], ◌∷◌, if◌then◌else◌, length,
}
use moonlight_wii.Prelude.Int.{ℤ}
use moonlight_wii.Prelude.Text.{Bytes, codes, str_eq}
use moonlight_wii.Config.{Configuration, defaults, set_bitrate}
use moonlight_wii.Config.Scan.{lines_of, scan_pair}
pub mod Argument
unfoldable pub use Argument.*

-- `struct option`: the name, whether the value is required, and the character.
pub record LongOption : Type 0 where
  pub name : Bytes
  pub has_arg : Bool
  pub val : ℕ

abbrev flag : Bytes → ℕ → LongOption
flag name val = record { name = name; has_arg = false; val = val }

abbrev valued : Bytes → ℕ → LongOption
valued name val = record { name = name; has_arg = true; val = val }

abbrev pub long_options : List LongOption
long_options =
    flag (codes "720") b'a'
    ∷ flag (codes "1080") b'b'
    ∷ flag (codes "4k") b'0'
    ∷ valued (codes "width") b'c'
    ∷ valued (codes "height") b'd'
    ∷ valued (codes "bitrate") b'g'
    ∷ valued (codes "packetsize") b'h'
    ∷ valued (codes "app") b'i'
    ∷ valued (codes "input") b'j'
    ∷ valued (codes "mapping") b'k'
    ∷ flag (codes "nosops") b'l'
    ∷ valued (codes "audio") b'm'
    ∷ flag (codes "localaudio") b'n'
    ∷ valued (codes "config") b'o'
    ∷ valued (codes "platform") b'p'
    ∷ valued (codes "save") b'q'
    ∷ valued (codes "keydir") b'r'
    ∷ valued (codes "remote") b's'
    ∷ flag (codes "windowed") b't'
    ∷ valued (codes "surround") b'u'
    ∷ valued (codes "fps") b'v'
    ∷ valued (codes "codec") b'x'
    ∷ flag (codes "nounsupported") b'y'
    ∷ flag (codes "quitappafter") b'1'
    ∷ flag (codes "viewonly") b'2'
    ∷ valued (codes "rotate") b'3'
    ∷ flag (codes "verbose") b'z'
    ∷ flag (codes "debug") b'Z'
    ∷ flag (codes "autostream") b'C'
    ∷ flag (codes "nomouseemulation") b'4'
    ∷ valued (codes "pin") b'5'
    ∷ valued (codes "port") b'6'
    ∷ flag (codes "hdr") b'7'
    ∷ valued (codes "osd_overscan") b'8'
    ∷ valued (codes "tls_test") b'9'
    ∷ valued (codes "encrypt") b'e'
    ∷ []

module _ (nested : Bytes → Configuration → Parsed) where
  -- One round of the loop over `long_options`.
  unfoldable pub try_option : LongOption → Bytes → Bytes → Configuration → Parsed
  unfolding parse_argument str_eq
  try_option o key value c =
      if str_eq o.name key
      then if o.has_arg
        then parse_argument nested o.val (some value) c
        else if str_eq (codes "true") value
        then parse_argument nested o.val none c
        else parsed c
      else parsed c

  unfoldable pub try_options : List LongOption → Bytes → Bytes → Configuration → Parsed
  unfolding try_option
  try_options [] key value c = parsed c
  try_options (o ∷ os) key value c =
      then_parse (try_option o key value c) (try_options os key value)

  -- What a line with a key and a value does.
  unfoldable pub parse_pair : Bytes → Bytes → Configuration → Parsed
  unfolding try_options str_eq
  parse_pair key value c =
      if str_eq key (codes "address")
      then parsed (record c { address = some value })
      else if str_eq key (codes "sops")
      then parsed (record c { sops = str_eq (codes "true") value })
      else try_options long_options key value c

  unfoldable pub parse_line : Bytes → Configuration → Parsed
  unfolding parse_pair scan_pair
  parse_line line c = elim (scan_pair line) [ none ↦ parsed c | some p ↦ parse_pair p.0 p.1 c ]

  -- The loop over the lines.
  unfoldable pub parse_lines : List Bytes → Configuration → Parsed
  unfolding parse_line
  parse_lines [] c = parsed c
  parse_lines (line ∷ lines) c = then_parse (parse_line line c) (parse_lines lines)

-- `files` are the files that can be read, and `depth` bounds how far an option "config" leads from file
-- to file.
unfoldable pub config_file_parse : (Bytes → Option Bytes) → ℕ → Bytes → Configuration → Parsed
unfolding parse_lines lines_of
config_file_parse files zero name c = too_deep
config_file_parse files (suc depth) name c = elim (files name) [
  | none ↦ cannot_open
  | some text ↦ parse_lines (config_file_parse files depth) (lines_of (length text) text) c
]

-- `config_parse`, which ignores the command line and goes on without a file.
unfoldable pub config_parse : (Bytes → Option Bytes) → ℕ → (ℕ → ℤ → ℤ) → Parsed
unfolding config_file_parse set_bitrate
config_parse files depth scale =
    elim (config_file_parse files depth (codes "/moonlight/moonlight.conf") defaults) [
      | parsed c ↦ parsed (set_bitrate scale c)
      | cannot_open ↦ parsed (set_bitrate scale defaults)
      | exited ↦ exited
      | too_deep ↦ too_deep
    ]
