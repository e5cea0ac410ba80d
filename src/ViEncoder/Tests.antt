-- ===== src/ViEncoder/Tests.antt =====
-- Calls of `VIDEO_SetTrapFilter`, and the theorem at one.
use moonlight_wii.Prelude.{◌≡◌, refl, true, false, [], ◌∷◌, length}
use moonlight_wii.ViEncoder.{
  Vi, open_i2c, set_scl, set_sda, get_sda, send_bit, send_bits, take_back, answered, acknowledged,
  send_slave_address, send_bytes, identify, prepare, close, transfer, video_set_trap_filter,
}
use moonlight_wii.ViEncoder.Bus.{Device, hear_scl, hear_sda, hear, hear_all}
use moonlight_wii.ViEncoder.Tracking.{Tracks}
use moonlight_wii.ViEncoder.Sending.{granted}
use moonlight_wii.ViEncoder.Transfer.{heard_transfer, video_set_trap_filter-heard}

-- Both lines high, and the flag is found to be on; then the encoder takes the three bytes.
abbrev idle : Vi
idle = record {
  lines = 0xc001;
  direction = 0;
  readings = 0x8000 ∷ 0 ∷ 0 ∷ 0 ∷ [];
  ident_first = false;
  ident_flag = true;
  writes = [];
}

abbrev listening : Device
listening = record {
  scl = true;
  sda = true;
  driven = false;
  value = 0;
  bytes = [];
  is_open = false;
  stopped = [];
}

idle-Tracks : Tracks true listening (identify idle) listening
unfolding identify get_sda open_i2c hear_all hear hear_scl hear_sda
idle-Tracks = record {
  heard = refl;
  scl_is = refl;
  sda_is = refl;
  driven_is = refl;
  flag_is = refl;
}

video_set_trap_filter-heard_example :
    hear_all true (video_set_trap_filter true idle).writes listening
    ≡ heard_transfer true 0xe0 (3 ∷ 1 ∷ []) listening
unfolding granted identify get_sda open_i2c
video_set_trap_filter-heard_example =
    video_set_trap_filter-heard true true listening idle listening refl idle-Tracks refl

-- Each bit takes three stores, and a byte five more; one finds the flag, five come before the address, one
-- behind it, and three behind the last byte.
stores : length (video_set_trap_filter false idle).writes ≡ 97
unfolding video_set_trap_filter transfer send_slave_address send_bytes send_bits send_bit
    acknowledged answered take_back prepare close identify get_sda open_i2c set_scl set_sda
stores = refl

-- An encoder that takes no byte: nothing follows the address.
refused :
    (hear_all true
      (video_set_trap_filter true (record idle { readings = 0x8000 ∷ 0x8000 ∷ [] })).writes
      listening).bytes
    ≡ 0xe0 ∷ []
unfolding video_set_trap_filter transfer send_slave_address send_bytes send_bits send_bit
    acknowledged answered take_back prepare close identify get_sda open_i2c set_scl set_sda hear_all
    hear hear_scl hear_sda
refused = refl
