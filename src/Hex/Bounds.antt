-- ===== src/Hex/Bounds.antt =====
-- `hex_to_bytes` stays inside the buffer that it is given.
use moonlight_wii.Prelude.{
  true, Bool-cases, inl, inr, ◌||◌, ℕ, ◌*◌, ◌/◌, ◌≤◌, ◌≡◌, some, [], ◌∷◌, arith, length, take,
  length-take,
}
use moonlight_wii.Prelude.Text.{Bytes}
use moonlight_wii.Hex.{out_of_table, decode_pairs, hex_to_bytes}

length-decode_pairs : (s : Bytes) → length (decode_pairs s).0 * 2 ≤ length s
unfolding decode_pairs
length-decode_pairs [] = omega arith
length-decode_pairs (c ∷ []) = omega arith
length-decode_pairs (c ∷ d ∷ s) = elim (Bool-cases (out_of_table c || out_of_table d)) [
  | inl out ↦ rw out (omega arith)
  | inr inside ↦ rw inside (omega (arith, length-decode_pairs s))
]

-- Whatever the text, `hex_to_bytes` writes at most `maxlen` bytes.
pub hex_to_bytes-le : (s : Bytes) (maxlen : ℕ) → length (hex_to_bytes s maxlen).0 ≤ maxlen
unfolding hex_to_bytes
hex_to_bytes-le s maxlen = ground (
  arith,
  length-decode_pairs (take (maxlen * 2) s),
  length-decode_pairs (take (length s) s),
  length-take (maxlen * 2) s,
  length-take (length s) s,
)

length-decode_pairs_whole :
    (s : Bytes) → (decode_pairs s).1 ≡ true → length (decode_pairs s).0 ≡ length s / 2
unfolding decode_pairs
length-decode_pairs_whole [] h = omega arith
length-decode_pairs_whole (c ∷ []) h = omega arith
length-decode_pairs_whole (c ∷ d ∷ s) h = ground (arith, length-decode_pairs_whole s)

-- A length that `hex_to_bytes` stores is the number of bytes that it wrote.
pub hex_to_bytes-len :
    (s : Bytes) (maxlen n : ℕ)
    → (hex_to_bytes s maxlen).1 ≡ some n
    → length (hex_to_bytes s maxlen).0 ≡ n
unfolding hex_to_bytes
hex_to_bytes-len s maxlen n h = ground (
  arith,
  length-decode_pairs_whole (take (maxlen * 2) s),
  length-decode_pairs_whole (take (length s) s),
  length-take (maxlen * 2) s,
  length-take (length s) s,
)
