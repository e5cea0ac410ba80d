-- ===== src/ViEncoder/Bus.antt =====
-- The other end of the I2C lines that src/wii/vi_encoder.c moves: what a device hears.
use moonlight_wii.Prelude.{
  ℕ, ◌+◌, ◌*◌, ◌≡◌, refl, Bool, true, false, not, ◌&&◌, List, [], ◌∷◌, ◌++◌, if◌then◌else◌,
}
use moonlight_wii.ViEncoder.{bit_of}

-- The lines as the registers show them, whether the data line is driven, and what was heard: the byte so
-- far, the bytes since the last start, whether a transfer is open, and the transfers that were stopped.
pub record Device : Type 0 where
  pub scl : Bool
  pub sda : Bool
  pub driven : Bool
  pub value : ℕ
  pub bytes : List ℕ
  pub is_open : Bool
  pub stopped : List (List ℕ)

-- The level of the data line: where the flag is off, it is driven the other way round.
abbrev pub level : Bool → Bool → Bool
level flag v = if flag then v else not v

abbrev pub bit_value : Bool → ℕ
bit_value b = if b then 1 else 0

-- The clock rises: a bit if the data line is driven, and else the place of the acknowledgement.
abbrev pub clock : Bool → Device → Device
clock flag d =
    if d.driven
    then record d { value = d.value * 2 + bit_value (level flag d.sda) }
    else record d { bytes = d.bytes ++ d.value ∷ []; value = 0 }

abbrev pub start : Device → Device
start d = record d { value = 0; bytes = []; is_open = true }

abbrev pub stop : Device → Device
stop d = record d { stopped = d.stopped ++ d.bytes ∷ []; bytes = []; is_open = false }

-- The data line, driven while the clock is high, falls or rises.
abbrev pub edge : Bool → Bool → Device → Device
edge true false d = start d
edge false true d = stop d
edge _ _ d = d

-- The clock line takes a value.
unfoldable pub hear_scl : Bool → Bool → Device → Device
hear_scl flag v d = record (if not d.scl && v then clock flag d else d) { scl = v }

-- The data line takes a value.
unfoldable pub hear_sda : Bool → Bool → Device → Device
hear_sda flag v d =
    record (if d.scl && d.driven then edge (level flag d.sda) (level flag v) d else d) { sda = v }

-- One store of the registers moves one line, or changes who drives the data line.
unfoldable pub hear : Bool → ℕ × ℕ → Device → Device
unfolding hear_scl hear_sda
hear flag (lines, direction) d =
    hear_scl flag (bit_of lines 14)
      (hear_sda flag (bit_of lines 15) (record d { driven = bit_of direction 15 }))

unfoldable pub hear_all : Bool → List (ℕ × ℕ) → Device → Device
unfolding hear
hear_all flag [] d = d
hear_all flag (w ∷ ws) d = hear_all flag ws (hear flag w d)

pub hear_all-append :
    (flag : Bool) (ws vs : List (ℕ × ℕ)) (d : Device)
    → hear_all flag (ws ++ vs) d ≡ hear_all flag vs (hear_all flag ws d)
unfolding hear_all
hear_all-append flag [] vs d = refl
hear_all-append flag (w ∷ ws) vs d = hear_all-append flag ws vs (hear flag w d)
