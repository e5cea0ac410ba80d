-- ===== src/Decode/Packet.antt =====
-- The packet that the decoder is given: the entries of a decode unit, one behind the other.
use moonlight_wii.Prelude.{
  ℕ, ◌+◌, ◌≤◌, ◌≡◌, refl, ap, ◌∙◌, List, [], ◌∷◌, ◌++◌, arith, append_assoc, append-nil, length,
  take, drop, length-append, length-drop, if◌then◌else◌, ltb, Bool-cases, inl, inr,
}
use moonlight_wii.Prelude.Text.{Bytes}
use moonlight_wii.Prelude.Memory.{write-append, drop-drop, join}
use moonlight_wii.Decode.{
  Video, DecodeUnit, Codec, Decoded, nothing, decoder_buffer_size, gather, take_decoded,
  submit_decode_unit,
}

same_pair :
    {a b c d : Bytes} → a ≡ b → c ≡ d → ◌≡◌ {A = Bytes × ℕ} (a ++ c, length a) (b ++ d, length b)
same_pair e f = cc

-- The entries of the list go behind what is done, without a gap.
gather_from :
    (es : List Bytes) (done rest : Bytes) (len : ℕ)
    → len ≡ length done
    → length (join es) ≤ length rest
    → gather es (done ++ rest) len
      ≡ ((done ++ join es) ++ drop (length (join es)) rest, length (done ++ join es))
unfolding gather
gather_from [] done rest len hl h = rw (hl, append-nil done)
gather_from (e ∷ es) done rest len hl h =
    rw (write-append done rest e len hl (omega (arith, length-append e (join es)))) (
      gather_from es (done ++ e) (drop (length e) rest) (len + length e)
        (omega (arith, length-append done e))
        (omega (arith, length-append e (join es), length-drop (length e) rest))
      ∙ same_pair (append_assoc done e (join es)) (
          drop-drop (length e) (length (join es)) rest
          ∙ ap (λ k. drop k rest) (omega (arith, length-append e (join es)))))

take_front : (s t : Bytes) → take (length s) (s ++ t) ≡ s
take_front [] t = refl
take_front (x ∷ s) t = ap (λ l. x ∷ l) (take_front s t)

-- What the decoder makes of a unit: units that are too long do not get to it.
abbrev pub result : Codec → DecodeUnit → Decoded
result codec unit =
    if ltb decoder_buffer_size unit.full_length then nothing else codec (join unit.buffer_list)

-- What a unit leaves in the buffer.
abbrev pub packed : DecodeUnit → Bytes → Bytes
packed unit buffer =
    let packet = join unit.buffer_list in
    if ltb decoder_buffer_size unit.full_length
    then buffer
    else packet ++ drop (length packet) buffer

module _ (codec : Codec) (unit : DecodeUnit) (s : Video) where
  -- For a unit whose `fullLength` is the sum of its entries' lengths, and a buffer of at least
  -- DECODER_BUFFER_SIZE bytes: the decoder is given the entries, in order and without a gap, which lie at the
  -- buffer's front and change nothing behind them; a unit of more than DECODER_BUFFER_SIZE bytes is dropped
  -- with DR_OK, and the decoder and the buffer are left alone.
  pub submit_decode_unit-packet :
      unit.full_length ≡ length (join unit.buffer_list)
      → decoder_buffer_size ≤ length s.decodebuffer
      → submit_decode_unit codec unit s
        ≡ take_decoded (result codec unit) (record s { decodebuffer = packed unit s.decodebuffer })
  unfolding submit_decode_unit
  submit_decode_unit-packet hl hb = elim (Bool-cases (ltb decoder_buffer_size unit.full_length)) [
    | inl e ↦ rw e refl
    | inr e ↦
        let packet = join unit.buffer_list in
        let fits : length packet ≤ length s.decodebuffer = ground arith in
        rw (e, gather_from unit.buffer_list [] s.decodebuffer 0 refl fits)
          (ap
            (λ (b : Bytes).
              take_decoded (codec b)
                (record s { decodebuffer = packet ++ drop (length packet) s.decodebuffer }))
            (take_front packet (drop (length packet) s.decodebuffer)))
  ]
