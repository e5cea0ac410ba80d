-- ===== src/Hex/RoundTrip.antt =====
-- `hex_to_bytes` reads back what `bytes_to_hex` wrote.
use moonlight_wii.Prelude.{
  ℕ, ◌*◌, ◌/◌, ◌%◌, ◌≤◌, ◌<◌, ◌≡◌, refl, ap, Bool, true, false, ◌||◌, ◌&&◌, not, some, [], ◌∷◌,
  arith, ◌==◌, ==_iff, length, take, and-true, not-true,
}
use moonlight_wii.Prelude.Ranges.{holds_below, holds_below→}
use moonlight_wii.Prelude.Text.{Bytes}
use moonlight_wii.Hex.{
  hex_digit, bytes_to_hex, pair_value, out_of_table, decode_pairs, hex_to_bytes,
}

-- Every element is a byte.
abbrev pub AreBytes : Bytes → Type 0
AreBytes [] = Unit
AreBytes (b ∷ bs) = (b < 256) × AreBytes bs

length-bytes_to_hex : (bs : Bytes) → length (bytes_to_hex bs) ≡ length bs * 2
unfolding bytes_to_hex
length-bytes_to_hex [] = refl
length-bytes_to_hex (b ∷ bs) = omega (arith, length-bytes_to_hex bs)

take_all : (xs : Bytes) → take (length xs) xs ≡ xs
take_all [] = refl
take_all (x ∷ xs) = ap (λ l. x ∷ l) (take_all xs)

abbrev reads_back : ℕ → Bool
reads_back b =
    not (out_of_table (hex_digit (b / 16)) || out_of_table (hex_digit (b % 16)))
    && (pair_value (hex_digit (b / 16)) (hex_digit (b % 16)) == b)

reads_back_table : holds_below reads_back 256 ≡ true
unfolding holds_below hex_digit pair_value out_of_table
reads_back_table = refl

pair-in_table :
    (b : ℕ)
    → b < 256
    → ((out_of_table (hex_digit (b / 16)) || out_of_table (hex_digit (b % 16))) ≡ false)
      × (pair_value (hex_digit (b / 16)) (hex_digit (b % 16)) ≡ b)
pair-in_table b h =
    let t = and-true _ _ (holds_below→ reads_back 256 b reads_back_table h) in
    (not-true _ t.0, (==_iff _ _).0 t.1)

decode_pairs-bytes_to_hex : (bs : Bytes) → AreBytes bs → decode_pairs (bytes_to_hex bs) ≡ (bs, true)
unfolding decode_pairs bytes_to_hex
decode_pairs-bytes_to_hex [] h = refl
decode_pairs-bytes_to_hex (b ∷ bs) h =
    let p = pair-in_table b h.0 in rw (p.0, p.1, decode_pairs-bytes_to_hex bs h.1)

-- What `bytes_to_hex` wrote of a string of bytes that fits the buffer, `hex_to_bytes` reads back
-- whole, with its length.
pub hex_to_bytes-bytes_to_hex :
    (bs : Bytes) (maxlen : ℕ)
    → AreBytes bs
    → length bs ≤ maxlen
    → hex_to_bytes (bytes_to_hex bs) maxlen ≡ (bs, some (length bs))
unfolding hex_to_bytes
hex_to_bytes-bytes_to_hex bs maxlen h fits =
    ground
      (arith, length-bytes_to_hex bs, take_all (bytes_to_hex bs), decode_pairs-bytes_to_hex bs h)
