-- ===== src/Config/Parse/Argument.antt =====
-- src/config.c: `parse_argument`, as built for the Wii.
use moonlight_wii.Prelude.{
  ℕ, ◌-◌, ◌+◌, ◌%◌, Bool, true, false, Option, none, some, [], ◌∷◌, ◌++◌, ◌&&◌, ◌||◌, map, ◌==◌,
  leb, if◌then◌else◌, length,
}
use moonlight_wii.Prelude.Int.{ℤ, pos, negsuc}
use moonlight_wii.Prelude.Text.{Bytes, codes, str_eq}
use moonlight_wii.Prelude.Decimal.{atoi}
use moonlight_wii.Config.{
  Configuration, unspecified, h264, hevc, av1, local, remote, auto, surround51, surround71,
  max_inputs,
}

-- What becomes of a call: it returns with the configuration as it left it, it returns false and leaves
-- the configuration alone, or it ends the program; `too_deep` stands for a nesting of files past the
-- given depth.
pub data Parsed : Type 0 where
  parsed : Configuration → Parsed
  cannot_open : Parsed
  exited : Parsed
  too_deep : Parsed

abbrev pub then_parse : Parsed → (Configuration → Parsed) → Parsed
then_parse (parsed c) k = k c
then_parse cannot_open k = cannot_open
then_parse exited k = exited
then_parse too_deep k = too_deep

abbrev pub to_lower : ℕ → ℕ
to_lower c = if leb b'A' c && leb c b'Z' then c + 32 else c

-- strcasecmp(s, t) == 0
unfoldable pub str_case_eq : Bytes → Bytes → Bool
unfolding str_eq
str_case_eq s t = str_eq (map to_lower s) (map to_lower t)

-- An `int` stored in an `unsigned short`.
abbrev to_unsigned_short : ℤ → ℕ
to_unsigned_short (pos n) = n % 65536
to_unsigned_short (negsuc n) = 65535 - n % 65536

unfoldable pub set_remote : Bytes → Configuration → Configuration
unfolding str_case_eq
set_remote v c =
    if str_case_eq v (codes "auto")
    then record c { streaming_remotely = auto }
    else if str_case_eq v (codes "true") || str_case_eq v (codes "yes")
    then record c { streaming_remotely = remote }
    else if str_case_eq v (codes "false") || str_case_eq v (codes "no")
    then record c { streaming_remotely = local }
    else c

unfoldable pub set_surround : Bytes → Configuration → Configuration
unfolding str_case_eq
set_surround v c =
    if str_case_eq v (codes "5.1")
    then record c { audio_configuration = surround51 }
    else if str_case_eq v (codes "7.1")
    then record c { audio_configuration = surround71 }
    else c

unfoldable pub set_codec : Bytes → Configuration → Configuration
unfolding str_case_eq
set_codec v c =
    if str_case_eq v (codes "auto")
    then record c { codec = unspecified }
    else if str_case_eq v (codes "h264")
    then record c { codec = h264 }
    else if str_case_eq v (codes "h265") || str_case_eq v (codes "hevc")
    then record c { codec = hevc }
    else if str_case_eq v (codes "av1")
    then record c { codec = av1 }
    else c

unfoldable pub set_encryption : Bytes → Configuration → Configuration
unfolding str_case_eq
set_encryption v c =
    if str_case_eq v (codes "none")
    then record c { encryption_flags = record { audio = false; video = false } }
    else if str_case_eq v (codes "audio")
    then record c { encryption_flags = record { audio = true; video = false } }
    else if str_case_eq v (codes "video")
    then record c { encryption_flags = record { audio = false; video = true } }
    else if str_case_eq v (codes "all")
    then record c { encryption_flags = record { audio = true; video = true } }
    else c

unfoldable pub add_input : Bytes → Configuration → Parsed
add_input v c =
    if leb max_inputs (length c.inputs)
    then exited
    else parsed (record c { inputs = c.inputs ++ v ∷ []; input_added = true })

-- The cases of the switch that take no value. 'k', which sets the mapping elsewhere, has no `break` here
-- and runs on into 'l'.
unfoldable pub parse_flag : ℕ → Configuration → Configuration
parse_flag o c =
    if o == b'a'
    then record c { width = pos 1280; height = pos 720 }
    else if o == b'b'
    then record c { width = pos 1920; height = pos 1080 }
    else if o == b'0'
    then record c { width = pos 3840; height = pos 2160 }
    else if o == b'k' || o == b'l'
    then record c { sops = false }
    else if o == b'n'
    then record c { localaudio = true }
    else if o == b't'
    then record c { fullscreen = false }
    else if o == b'y'
    then record c { unsupported = false }
    else if o == b'1'
    then record c { quitappafter = true }
    else if o == b'2'
    then record c { viewonly = true }
    else if o == b'z'
    then record c { debug_level = 1 }
    else if o == b'Z'
    then record c { debug_level = 2 }
    else if o == b'C'
    then record c { autostream = true }
    else if o == b'4'
    then record c { mouse_emulation = false }
    else if o == b'7'
    then record c { hdr = true }
    else c

-- The cases that store the value.
unfoldable pub parse_value : ℕ → Bytes → Configuration → Configuration
unfolding set_remote set_surround set_codec set_encryption atoi
parse_value o v c =
    if o == b'c'
    then record c { width = atoi v }
    else if o == b'd'
    then record c { height = atoi v }
    else if o == b'g'
    then record c { bitrate = atoi v }
    else if o == b'h'
    then record c { packet_size = atoi v }
    else if o == b'i'
    then record c { app = v }
    else if o == b'm'
    then record c { audio_device = some v }
    else if o == b'p'
    then record c { platform = v }
    else if o == b'q'
    then record c { config_file = some v }
    else if o == b'r'
    then record c { key_dir = v }
    else if o == b's'
    then set_remote v c
    else if o == b'u'
    then set_surround v c
    else if o == b'v'
    then record c { fps = atoi v }
    else if o == b'x'
    then set_codec v c
    else if o == b'3'
    then record c { rotate = atoi v }
    else if o == b'5'
    then record c { pin = atoi v }
    else if o == b'6'
    then record c { port = to_unsigned_short (atoi v) }
    else if o == b'8'
    then record c { osd_overscan = atoi v }
    else if o == b'9'
    then record c { tls_test = some v }
    else if o == b'e'
    then set_encryption v c
    else c

-- `case 1`
unfoldable pub add_positional : Bytes → Configuration → Parsed
add_positional v c = elim c.action [
  | none ↦ parsed (record c { action = some v })
  | some a ↦ elim c.address [ none ↦ parsed (record c { address = some v }) | some b ↦ exited ]
]

-- A file that cannot be opened ends the program.
abbrev pub or_exit : Parsed → Parsed
or_exit (parsed c) = parsed c
or_exit cannot_open = exited
or_exit exited = exited
or_exit too_deep = too_deep

-- The switch; `nested` is `config_file_parse`. No option that takes a value is given NULL.
unfoldable pub parse_argument :
    (Bytes → Configuration → Parsed) → ℕ → Option Bytes → Configuration → Parsed
unfolding parse_flag parse_value add_input add_positional
parse_argument nested o none c = parsed (parse_flag o c)
parse_argument nested o (some v) c =
    if o == b'j'
    then add_input v c
    else if o == b'o'
    then or_exit (nested v c)
    else if o == 1
    then add_positional v c
    else parsed (parse_flag o (parse_value o v c))
