-- ===== src/Identity/Loaded.antt =====
-- The buffers that `gs_conf_load` fills: the hexadecimal text of the certificate, and the unique id.
use moonlight_wii.Prelude.{
  ℕ, zero, suc, ◌+◌, ◌-◌, ◌/◌, ◌%◌, ◌≤◌, ◌<◌, ◌≡◌, refl, ap, sym, ◌∙◌, true, false, [], ◌∷◌, ◌++◌,
  leb, arith, length, take, drop, set, append_assoc, append-nil, length-append, length-drop,
}
use moonlight_wii.Prelude.Text.{Bytes, c_string}
use moonlight_wii.Prelude.Memory.{write, write-append}
use moonlight_wii.Hex.{hex_digit, bytes_to_hex}
use moonlight_wii.Identity.{Platform, cert_hex_size, hex_loop, cert_hex_of}

abbrev pub NonZero : Bytes → Type 0
NonZero [] = Unit
NonZero (c ∷ s) = (0 < c) × NonZero s

-- A text with its NUL set behind it.
pub c_string-set :
    (s t : Bytes) → NonZero s → 1 ≤ length t → c_string (set (s ++ t) (length s) 0) ≡ s
unfolding c_string
c_string-set [] [] h l = absurd (omega arith)
c_string-set [] (x ∷ t) h l = refl
c_string-set (c ∷ s) t h l = ground (arith, c_string-set s t h.1 l)

NonZero-append : (s t : Bytes) → NonZero s → NonZero t → NonZero (s ++ t)
NonZero-append [] t a b = b
NonZero-append (c ∷ s) t a b = (a.0, NonZero-append s t a.1 b)

hex_digit_pos : (d : ℕ) → 0 < hex_digit d
unfolding hex_digit
hex_digit_pos d = ground arith

bytes_to_hex-NonZero : (bs : Bytes) → NonZero (bytes_to_hex bs)
unfolding bytes_to_hex
bytes_to_hex-NonZero [] = tt
bytes_to_hex-NonZero (b ∷ bs) =
    (hex_digit_pos (b / 16), (hex_digit_pos (b % 16), bytes_to_hex-NonZero bs))

take_nil : (n : ℕ) → take {A = ℕ} n [] ≡ []
take_nil zero = refl
take_nil (suc n) = refl

module _ (platform : Platform) where
  stops :
      (done rest : Bytes) (len : ℕ)
      → len ≡ length done
      → ◌≡◌ {A = Bytes × ℕ} (done ++ rest, len) ((done ++ []) ++ rest, length (done ++ []))
  stops done rest len hl = rw (append-nil done) (ap (λ n. (done ++ rest, n)) hl)

  writes :
      (done rest : Bytes) (len a b : ℕ)
      → len ≡ length done
      → 3 ≤ length rest
      → write (done ++ rest) len (a ∷ b ∷ 0 ∷ []) ≡ (done ++ a ∷ b ∷ []) ++ 0 ∷ drop 3 rest
  writes done rest len a b hl h =
      write-append done rest (a ∷ b ∷ 0 ∷ []) len hl h
      ∙ append_assoc done (a ∷ b ∷ 0 ∷ []) (drop 3 rest)
      ∙ sym (append_assoc done (a ∷ b ∷ []) (0 ∷ drop 3 rest))

  -- From `len` on, the loop writes the digits of as many bytes as leave room for a NUL.
  hex_loop_lem :
      (k : ℕ) (cs done rest : Bytes) (len : ℕ)
      → k ≡ (8191 - len) / 2
      → len ≡ length done
      → len + length rest ≡ cert_hex_size
      → 1 ≤ length rest
      → (tail : Bytes) × (1 ≤ length tail)
        × (hex_loop platform cs (done ++ rest) len ≡ (
          (done ++ bytes_to_hex (take k cs)) ++ tail,
          length (done ++ bytes_to_hex (take k cs)),
        ))
  unfolding hex_loop bytes_to_hex
  hex_loop_lem k [] done rest len hk hl hr h1 = (rest, h1, rw (take_nil k) (stops done rest len hl))
  hex_loop_lem zero (c ∷ cs) done rest len hk hl hr h1 =
      let full : leb cert_hex_size (len + 2) ≡ true = ground arith in
      (rest, h1, rw full (stops done rest len hl))
  hex_loop_lem (suc k) (c ∷ cs) done rest len hk hl hr h1 =
      let free : leb cert_hex_size (len + 2) ≡ false = ground arith in
      let a = hex_digit (c / 16) in
      let b = hex_digit (c % 16) in
      let digits = a ∷ b ∷ [] in
      let (tail, ht, ih) =
        hex_loop_lem k cs (done ++ digits) (0 ∷ drop 3 rest) (len + 2) (omega arith)
          (omega (arith, length-append done digits)) (omega (arith, length-drop 3 rest))
          (omega arith) in
      (
        tail,
        ht,
        rw free (
            ap (λ buffer. hex_loop platform cs buffer (len + 2))
              (writes done rest len a b hl (omega arith))
            ∙ ih
            ∙ ap (λ s. (s ++ tail, length s))
                (append_assoc done digits (bytes_to_hex (take k cs)))),
      )

  -- The text of the certificate that goes into requests: the hexadecimal digits of the file's bytes, of its
  -- first 4095 where it has more; the buffer of 8192 bytes is not left.
  pub cert_hex_of-bytes_to_hex :
      (content buffer : Bytes)
      → length buffer ≡ cert_hex_size
      → c_string (cert_hex_of platform content buffer) ≡ bytes_to_hex (take 4095 content)
  unfolding cert_hex_of
  cert_hex_of-bytes_to_hex content buffer h =
      let (tail, ht, e) =
        hex_loop_lem 4095 content [] buffer 0 refl refl (omega arith) (omega arith) in
      ap (λ r. c_string (set r.0 r.1 0)) e
      ∙ c_string-set (bytes_to_hex (take 4095 content)) tail
          (bytes_to_hex-NonZero (take 4095 content)) ht
