-- ===== src/Config/Save.antt =====
-- src/config.c: `config_save`. The file is written whole; one that cannot be opened ends the program.
use moonlight_wii.Prelude.{Bool, not, ◌&&◌, Option, none, some, List, [], ◌∷◌, ◌++◌, if◌then◌else◌}
use moonlight_wii.Prelude.Int.{is_zero}
use moonlight_wii.Prelude.Text.{Bytes, codes, str_eq}
use moonlight_wii.Prelude.Decimal.{print_int}
use moonlight_wii.Config.{Configuration, Encryption}

-- A key and the text of its value.
abbrev pub Entry : Type 0
Entry = Bytes × Bytes

-- `write_config_bool`
abbrev pub bool_text : Bool → Bytes
bool_text b = if b then codes "true" else codes "false"

unfoldable pub encryption_flags_string : Encryption → Bytes
encryption_flags_string e =
    if e.audio && e.video
    then codes "all"
    else if e.video
    then codes "video"
    else if e.audio
    then codes "audio"
    else codes "none"

-- An entry that is written only under a condition, and one for a pointer that may be NULL.
abbrev pub entry_if : Bool → Entry → List Entry → List Entry
entry_if b e rest = if b then e ∷ rest else rest

abbrev pub entry_some : Option Bytes → Bytes → List Entry → List Entry
entry_some none key rest = rest
entry_some (some value) key rest = (key, value) ∷ rest

-- The calls of `write_config_string`, `write_config_int` and `write_config_bool`, in order.
unfoldable pub saved_entries : Configuration → List Entry
unfolding encryption_flags_string
saved_entries c = entry_some c.address (codes "address") (
    (codes "width", print_int c.width)
    ∷ (codes "height", print_int c.height)
    ∷ (codes "fps", print_int c.fps)
    ∷ (codes "bitrate", print_int c.bitrate)
    ∷ (codes "packetsize", print_int c.packet_size)
    ∷ (codes "encrypt", encryption_flags_string c.encryption_flags)
    ∷ entry_if (not c.sops) (codes "sops", bool_text c.sops)
        (entry_if c.localaudio (codes "localaudio", bool_text c.localaudio)
          (entry_if c.quitappafter (codes "quitappafter", bool_text c.quitappafter)
            (entry_if c.viewonly (codes "viewonly", bool_text c.viewonly)
              (entry_if (not (is_zero c.rotate)) (codes "rotate", print_int c.rotate)
                (entry_if (not (is_zero c.osd_overscan))
                  (codes "osd_overscan", print_int c.osd_overscan)
                  (entry_if (not (str_eq c.app (codes "Steam"))) (codes "app", c.app)
                    (entry_some c.tls_test (codes "tls_test") []))))))))

-- "%s = %s\n"
abbrev pub print_entry : Entry → Bytes → Bytes
print_entry e rest = e.0 ++ codes " = " ++ e.1 ++ 10 ∷ rest

abbrev pub print_entries : List Entry → Bytes
print_entries [] = []
print_entries (e ∷ es) = print_entry e (print_entries es)

-- The text of the file.
unfoldable pub config_save : Configuration → Bytes
unfolding saved_entries
config_save c = print_entries (saved_entries c)
