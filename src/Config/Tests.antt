-- ===== src/Config/Tests.antt =====
-- src/config.c: runs of the parser.
use moonlight_wii.Prelude.{
  ℕ, if◌then◌else◌, ◌≡◌, refl, true, false, Option, none, some, [], ◌∷◌, arith,
}
use moonlight_wii.Prelude.Int.{ℤ, pos, negsuc, ◌*ℤ◌}
use moonlight_wii.Prelude.Text.{Bytes, codes, str_eq}
use moonlight_wii.Prelude.Decimal.{print_int}
use moonlight_wii.Config.{Configuration, defaults}
use moonlight_wii.Config.Parse.{
  Parsed, parsed, cannot_open, exited, parse_lines, config_file_parse, config_parse,
}
use moonlight_wii.Config.Scan.{get_line}
use moonlight_wii.Config.Save.{config_save}
use moonlight_wii.Config.Lines.{has_no_newline}
use moonlight_wii.Config.Numbers.{FitsInt}
use moonlight_wii.Config.Saved.{IsSavable}
use moonlight_wii.Config.RoundTrip.{restored, config_file_parse-config_save}
use moonlight_wii.Config.Inputs.{InputsFit}

abbrev pub sample : Configuration
sample = record defaults {
  address = some (codes "10.0.0.2");
  width = pos 854;
  bitrate = pos 4000;
  sops = false;
  localaudio = true;
  rotate = pos 90;
  osd_overscan = negsuc 4;
  app = codes "Big Picture";
  encryption_flags = record { audio = true; video = false };
}

sample-text :
    config_save sample
    ≡ codes
        "address = 10.0.0.2\nwidth = 854\nheight = 480\nfps = 30\nbitrate = 4000\npacketsize = 1392\nencrypt = audio\nsops = false\nlocalaudio = true\nrotate = 90\nosd_overscan = -5\napp = Big Picture\n"
unfolding config_save print_int str_eq
sample-text = refl

pub sample-IsSavable : IsSavable sample
unfolding FitsInt has_no_newline
sample-IsSavable = record {
  width = omega arith;
  height = omega arith;
  fps = omega arith;
  bitrate = omega arith;
  packet_size = omega arith;
  rotate = omega arith;
  osd_overscan = omega arith;
  app = record { no_newline = refl; short = omega arith; starts = refl };
  address = record { no_newline = refl; short = omega arith; starts = refl };
  tls_test = tt;
}

-- The one file that there is.
abbrev saved : Bytes → Option Bytes
saved name = some (config_save sample)

config_file_parse-config_save_example :
    config_file_parse saved 1 (codes "moonlight.conf") defaults ≡ parsed (restored sample)
config_file_parse-config_save_example =
    config_file_parse-config_save saved 0 (codes "moonlight.conf") sample sample-IsSavable refl

abbrev no_file : Bytes → Configuration → Parsed
no_file name c = cannot_open

defaults-InputsFit : InputsFit defaults
unfolding InputsFit
defaults-InputsFit = omega arith

-- A file that names itself goes on for ever.
abbrev looping : Bytes → Option Bytes
looping name = some (codes "input = a\nconfig = a\n")

-- The seventh input ends the program; short of that the file is read for ever.
looping-exited : config_file_parse looping 8 (codes "a") defaults ≡ exited
unfolding config_file_parse get_line
looping-exited = refl

missing-config : parse_lines no_file (codes "config = other\n" ∷ []) defaults ≡ exited
unfolding parse_lines
missing-config = refl

abbrev no_files : Bytes → Option Bytes
no_files name = none

abbrev thirds : ℕ → ℤ → ℤ
thirds k fps = pos k

config_parse-no_file :
    config_parse no_files 1 thirds ≡ parsed (record defaults { bitrate = pos 1500 })
unfolding config_parse ◌*ℤ◌
config_parse-no_file = refl

-- Two files, of which the first names the second.
abbrev first_text : Bytes
first_text = codes "config = b\nfps = 60\n"

abbrev second_text : Bytes
second_text = codes "width = 854\n"

abbrev two_files : Bytes → Option Bytes
two_files name = if str_eq name (codes "a") then some first_text else some second_text

abbrev two_ranks : Bytes → ℕ
two_ranks name = if str_eq name (codes "a") then 1 else 0
