-- ===== src/Hex/Tests.antt =====
-- Runs of the hexadecimal codec, and the theorems at concrete inputs.
use moonlight_wii.Prelude.{◌≡◌, refl, none, some, [], ◌∷◌, arith}
use moonlight_wii.Prelude.Text.{Bytes, codes}
use moonlight_wii.Hex.{bytes_to_hex, pair_value, out_of_table, decode_pairs, hex_to_bytes}
use moonlight_wii.Hex.RoundTrip.{hex_to_bytes-bytes_to_hex}

abbrev salt : Bytes
salt = 0 ∷ 171 ∷ 255 ∷ 9 ∷ []

bytes_to_hex-salt : bytes_to_hex salt ≡ codes "00abff09"
unfolding bytes_to_hex
bytes_to_hex-salt = refl

-- An odd length, a letter past the table, and a text that the buffer cuts off.
odd_cases :
    (hex_to_bytes (codes "abc") 8 ≡ ([], none))
    × (hex_to_bytes (codes "41zz") 8 ≡ (65 ∷ [], none))
    × (hex_to_bytes (codes "414243") 2 ≡ (65 ∷ 66 ∷ [], some 2))
unfolding hex_to_bytes decode_pairs pair_value out_of_table
odd_cases = (refl, refl, refl)

hex_to_bytes-bytes_to_hex_example : hex_to_bytes (bytes_to_hex salt) 16 ≡ (salt, some 4)
hex_to_bytes-bytes_to_hex_example = hex_to_bytes-bytes_to_hex salt 16 (omega arith) (omega arith)
