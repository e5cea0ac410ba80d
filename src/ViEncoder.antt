-- ===== src/ViEncoder.antt =====
-- src/wii/vi_encoder.c: `VIDEO_SetTrapFilter` sets a register of the video encoder over I2C, whose two
-- lines it moves by hand. A store to one of the registers _i2cReg[48] and [49] is recorded with both as it
-- leaves them; what reads of _i2cReg[50] give is a list of words, 0 behind its end. The flags are 0 or 1.
pub mod Bus
pub mod Tracking
pub mod Bits
pub mod Sending
pub mod Transfer
mod Tests
use moonlight_wii.Prelude.{
  ℕ, zero, suc, ◌+◌, ◌-◌, ◌*◌, ◌/◌, ◌%◌, ◌^◌, Bool, true, false, not, ◌&&◌, List, [], ◌∷◌, ◌++◌,
  ◌==◌, if◌then◌else◌,
}

pub record Vi : Type 0 where
  pub lines : ℕ
  pub direction : ℕ
  pub readings : List ℕ
  pub ident_first : Bool
  pub ident_flag : Bool
  pub writes : List (ℕ × ℕ)

-- (n & ~(1 << k)) | _SHIFTL(v, k, 1)
abbrev pub set_bit : ℕ → ℕ → Bool → ℕ
set_bit n k v = n - n / 2 ^ k % 2 * 2 ^ k + (if v then 2 ^ k else 0)

abbrev pub bit_of : ℕ → ℕ → Bool
bit_of n k = n / 2 ^ k % 2 == 1

abbrev store : Vi → Vi
store s = record s { writes = s.writes ++ (s.lines, s.direction) ∷ [] }

unfoldable pub open_i2c : Bool → Vi → Vi
open_i2c channel s =
    store (record s { direction = set_bit (set_bit s.direction 14 true) 15 channel })

unfoldable pub set_scl : Bool → Vi → Vi
set_scl channel s = store (record s { lines = set_bit s.lines 14 channel })

unfoldable pub set_sda : Bool → Vi → Vi
set_sda channel s = store (record s { lines = set_bit s.lines 15 channel })

abbrev pub first_reading : List ℕ → ℕ
first_reading [] = 0
first_reading (x ∷ xs) = x

abbrev pub other_readings : List ℕ → List ℕ
other_readings [] = []
other_readings (x ∷ xs) = xs

-- __viGetSDA() != 0
unfoldable pub get_sda : Vi → Vi × Bool
get_sda s =
    (record s { readings = other_readings s.readings }, bit_of (first_reading s.readings) 15)

-- One round of the loops over the bits.
unfoldable pub send_bit : Bool → Vi → Vi
unfolding set_sda set_scl
send_bit bit s =
    set_scl false (set_scl true (set_sda (if bit then s.ident_flag else not s.ident_flag) s))

-- The loops over the bits of a byte, the highest first.
unfoldable pub send_bits : ℕ → ℕ → Vi → Vi
unfolding send_bit
send_bits zero c s = s
send_bits (suc n) c s = send_bits n (c * 2 % 256) (send_bit (bit_of c 7) s)

-- The data line is taken back after a byte.
unfoldable pub take_back : Vi → Vi
unfolding open_i2c set_scl set_sda
take_back s = set_scl false (open_i2c true (set_sda (not s.ident_flag) s))

-- The encoder may refuse a byte, where the flag is set.
unfoldable pub answered : Bool → Vi → Vi × Bool
unfolding take_back get_sda
answered false s = (take_back s, true)
answered true s =
    let (asked, high) = get_sda s in if high then (asked, false) else (take_back asked, true)

-- What follows the bits of a byte.
unfoldable pub acknowledged : Vi → Vi × Bool
unfolding open_i2c set_scl answered
acknowledged s = answered s.ident_flag (set_scl true (open_i2c false s))

unfoldable pub send_slave_address : ℕ → Vi → Vi × Bool
unfolding send_bits acknowledged
send_slave_address addr s =
    acknowledged (send_bits 8 addr (set_scl false (set_sda (not s.ident_flag) s)))

-- The loop over the bytes.
unfoldable pub send_bytes : List ℕ → Vi → Vi × Bool
unfolding send_bits acknowledged
send_bytes [] s = (s, true)
send_bytes (c ∷ cs) s =
    let (t, taken) = acknowledged (send_bits 8 c s) in if taken then send_bytes cs t else (t, false)

-- The first call finds out how the lines are to be driven.
unfoldable pub identify : Vi → Vi
unfolding open_i2c get_sda
identify s =
    let (t, high) = get_sda (open_i2c false s) in
    if s.ident_first then s else record t { ident_flag = high; ident_first = true }

-- The lines as they are before the address.
unfoldable pub prepare : Vi → Vi
unfolding open_i2c set_scl set_sda
prepare s = set_sda s.ident_flag (set_scl true (open_i2c true s))

-- What follows the last byte.
unfoldable pub close : Vi → Vi
unfolding open_i2c set_sda
close s = set_sda s.ident_flag (set_sda (not s.ident_flag) (open_i2c true s))

abbrev pub slave : ℕ
slave = 0xe0

abbrev pub trap_filter : Bool → List ℕ
trap_filter enable = 3 ∷ (if enable then 1 else 0) ∷ []

-- The transfer itself: the address, the bytes behind it, and the end.
unfoldable pub transfer : ℕ → List ℕ → Vi → Vi
unfolding prepare send_slave_address send_bytes close
transfer addr bytes s =
    let (t, there) = send_slave_address addr (prepare s) in
    let (u, taken) = send_bytes bytes (open_i2c true t) in
    if there then (if taken then close u else u) else t

unfoldable pub video_set_trap_filter : Bool → Vi → Vi
unfolding identify transfer
video_set_trap_filter enable s = transfer slave (trap_filter enable) (identify s)
