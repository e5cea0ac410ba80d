-- ===== src/Hex.antt =====
-- libgamestream/client.c: `bytes_to_hex` and `hex_to_bytes`, by which binary values travel in URLs
-- and XML.
pub mod RoundTrip
pub mod Bounds
mod Tests
use moonlight_wii.Prelude.{
  ℕ, ◌+◌, ◌-◌, ◌*◌, ◌/◌, ◌%◌, Bool, true, false, ◌||◌, Option, none, some, List, [], ◌∷◌, bit_or,
  ltb, ◌==◌, if◌then◌else◌, length, take, get_or,
}
use moonlight_wii.Prelude.Text.{Bytes}

-- A digit of "%02x".
unfoldable pub hex_digit : ℕ → ℕ
hex_digit d = if ltb d 10 then 48 + d else 87 + d

unfoldable pub bytes_to_hex : Bytes → Bytes
unfolding hex_digit
bytes_to_hex [] = []
bytes_to_hex (b ∷ bs) = hex_digit (b / 16) ∷ hex_digit (b % 16) ∷ bytes_to_hex bs

abbrev pub map_table : List ℕ
map_table =
    0 ∷ 1 ∷ 2 ∷ 3 ∷ 4 ∷ 5 ∷ 6 ∷ 7 ∷ 8 ∷ 9 ∷ 0 ∷ 0 ∷ 0 ∷ 0 ∷ 0 ∷ 0 ∷ 0 ∷ 10 ∷ 11 ∷ 12 ∷ 13 ∷ 14 ∷ 15
    ∷ 0 ∷ 0 ∷ 0 ∷ 0 ∷ 0 ∷ 0 ∷ 0 ∷ 0 ∷ 0 ∷ 0 ∷ 0 ∷ 0 ∷ 0 ∷ 0 ∷ 0 ∷ 0 ∷ 0 ∷ 0 ∷ 0 ∷ 0 ∷ 0 ∷ 0 ∷ 0 ∷ 0
    ∷ 0 ∷ 0 ∷ 10 ∷ 11 ∷ 12 ∷ 13 ∷ 14 ∷ 15 ∷ []

-- (map_table[ch1 - 0x30] << 4 | map_table[ch2 - 0x30]) & 0xFF
unfoldable pub pair_value : ℕ → ℕ → ℕ
pair_value ch1 ch2 =
    bit_or (get_or map_table (ch1 - 48) 0 * 16) (get_or map_table (ch2 - 48) 0) % 256

unfoldable pub out_of_table : ℕ → Bool
out_of_table ch = ltb ch 48 || ltb 102 ch

-- The loop: the bytes written to `out`, and whether it ran to its end.
unfoldable pub decode_pairs : Bytes → Bytes × Bool
decode_pairs (ch1 ∷ ch2 ∷ rest) =
    let (written, whole) = decode_pairs rest in
    if out_of_table ch1 || out_of_table ch2
    then ([], false)
    else (pair_value ch1 ch2 ∷ written, whole)
decode_pairs _ = ([], true)

-- The bytes written to `out`, and the value stored in `*len`: `none` where the function returns
-- without a write to it, so that the caller's variable keeps its value.
unfoldable pub hex_to_bytes : Bytes → ℕ → Bytes × Option ℕ
hex_to_bytes input maxlen =
    if length input % 2 == 1
    then ([], none)
    else let inl = if ltb maxlen (length input / 2) then maxlen * 2 else length input in
      let (out, whole) = decode_pairs (take inl input) in
      (out, if whole then some (inl / 2) else none)
