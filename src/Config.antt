-- ===== src/Config.antt =====
-- src/config.c and src/config.h as built for the Wii: the configuration, its defaults, and the bitrate
-- that stands for none.
pub mod Scan
pub mod Parse
pub mod Save
pub mod Lines
pub mod Numbers
pub mod Saved
pub mod RoundTrip
pub mod Laws
pub mod Inputs
pub mod Nesting
pub mod Tests
use moonlight_wii.Prelude.{
  ℕ, zero, ◌*◌, Bool, true, false, Option, none, List, [], if◌then◌else◌, leb,
}
use moonlight_wii.Prelude.Int.{ℤ, pos, negsuc, ◌*ℤ◌, pos_part}
use moonlight_wii.Prelude.Text.{Bytes, codes}

-- `enum codecs`
pub data Codec : Type 0 where
  unspecified h264 hevc av1 : Codec

-- STREAM_CFG_LOCAL, STREAM_CFG_REMOTE and STREAM_CFG_AUTO
pub data Remote : Type 0 where
  local remote auto : Remote

-- AUDIO_CONFIGURATION_STEREO and the two surround ones
pub data Channels : Type 0 where
  stereo surround51 surround71 : Channels

-- The bits ENCFLG_AUDIO and ENCFLG_VIDEO of `encryptionFlags`
pub record Encryption : Type 0 where
  pub audio : Bool
  pub video : Bool

-- `CONFIGURATION`, with the fields of `stream` that this program sets, and the globals `autostream` and
-- `inputAdded`. `none` is NULL; `inputs` are the first `inputsCount` inputs.
pub record Configuration : Type 0 where
  pub width : ℤ
  pub height : ℤ
  pub fps : ℤ
  pub bitrate : ℤ
  pub packet_size : ℤ
  pub streaming_remotely : Remote
  pub audio_configuration : Channels
  pub encryption_flags : Encryption
  pub debug_level : ℕ
  pub app : Bytes
  pub action : Option Bytes
  pub address : Option Bytes
  pub mapping : Bytes
  pub platform : Bytes
  pub audio_device : Option Bytes
  pub config_file : Option Bytes
  pub key_dir : Bytes
  pub sops : Bool
  pub localaudio : Bool
  pub fullscreen : Bool
  pub rotate : ℤ
  pub unsupported : Bool
  pub quitappafter : Bool
  pub viewonly : Bool
  pub mouse_emulation : Bool
  pub inputs : List Bytes
  pub codec : Codec
  pub hdr : Bool
  pub pin : ℤ
  pub port : ℕ
  pub osd_overscan : ℤ
  pub tls_test : Option Bytes
  pub autostream : Bool
  pub input_added : Bool

abbrev pub max_inputs : ℕ
max_inputs = 6

-- What `config_parse` stores before it reads the file.
abbrev pub defaults : Configuration
defaults = record {
  width = pos 640;
  height = pos 480;
  fps = pos 30;
  bitrate = negsuc 0;
  packet_size = pos 1392;
  streaming_remotely = auto;
  audio_configuration = stereo;
  encryption_flags = record { audio = false; video = false };
  debug_level = 0;
  app = codes "Steam";
  action = none;
  address = none;
  mapping = [];
  platform = codes "auto";
  audio_device = none;
  config_file = none;
  key_dir = codes "/moonlight/keys";
  sops = true;
  localaudio = false;
  fullscreen = true;
  rotate = pos 0;
  unsupported = true;
  quitappafter = false;
  viewonly = false;
  mouse_emulation = true;
  inputs = [];
  codec = h264;
  hdr = false;
  pin = pos 0;
  port = 47989;
  osd_overscan = pos 0;
  tls_test = none;
  autostream = false;
  input_added = false;
}

-- width * height <= limit, of an `int` product that fits
abbrev at_most : Configuration → ℕ → Bool
at_most c limit = let pixels = c.width *ℤ c.height in leb (pos_part pixels) limit

-- The kilobits at 30 frames a second, by the size of the picture.
unfoldable pub base_bitrate : Configuration → ℕ
unfolding ◌*ℤ◌
base_bitrate c =
    if at_most c (640 * 360)
    then 1000
    else if at_most c (854 * 480)
    then 1500
    else if at_most c (1366 * 768)
    then 5000
    else if at_most c (1920 * 1200)
    then 10000
    else if at_most c (2560 * 1600)
    then 20000
    else 40000

abbrev is_minus_one : ℤ → Bool
is_minus_one (negsuc zero) = true
is_minus_one _ = false

-- The end of `config_parse`; `scale` is (int)(k * (fps / 30.0)), in the arithmetic of `double`.
unfoldable pub set_bitrate : (ℕ → ℤ → ℤ) → Configuration → Configuration
unfolding base_bitrate
set_bitrate scale c =
    if is_minus_one c.bitrate then record c { bitrate = scale (base_bitrate c) c.fps } else c
