-- ===== src/ViEncoder/Bits.antt =====
-- What a device hears of the bits of a byte that src/wii/vi_encoder.c sends.
use moonlight_wii.Prelude.{
  Bool-cases, inl, inr, sym, ℕ, zero, suc, ◌+◌, ◌*◌, ◌%◌, ◌<◌, ◌≡◌, refl, ap, ◌∙◌, Bool, true,
  false, not, ◌&&◌, arith, ◌==◌, if◌then◌else◌,
}
use mathlib.Core.Path.{subst}
use moonlight_wii.ViEncoder.{Vi, bit_of, set_scl, set_sda, send_bit, send_bits}
use moonlight_wii.ViEncoder.Bus.{Device, bit_value, hear_scl, hear_sda}
use moonlight_wii.ViEncoder.Tracking.{Tracks, set_sda-Tracks, set_scl-Tracks}

pub Tracks-eq :
    {flag : Bool} {first d d' : Device} {s : Vi}
    → d ≡ d'
    → Tracks flag first s d
    → Tracks flag first s d'
Tracks-eq {flag} {first} {d} {d'} {s} e t = subst (Tracks flag first s) e t

-- The register's bit for a bit of a byte.
abbrev driven_as : Bool → Bool → Bool
driven_as flag bit = if bit then flag else not flag

hear_bit :
    (flag bit : Bool) (d : Device)
    → d.scl ≡ false
    → d.driven ≡ true
    → hear_scl flag false (hear_scl flag true (hear_sda flag (driven_as flag bit) d))
      ≡ record d { sda = driven_as flag bit; value = d.value * 2 + bit_value bit }
unfolding hear_scl hear_sda
hear_bit flag bit d c h = ground arith

-- The bits of a byte, as they change the last value of the data line and the value that is heard.
pub sda_after : Bool → ℕ → ℕ → Bool → Bool
sda_after flag zero c x = x
sda_after flag (suc n) c x = sda_after flag n (c * 2 % 256) (driven_as flag (bit_of c 7))

pub heard_bits : ℕ → ℕ → ℕ → ℕ
heard_bits zero c v = v
heard_bits (suc n) c v = heard_bits n (c * 2 % 256) (v * 2 + bit_value (bit_of c 7))

send_bit-Tracks :
    (flag bit : Bool) (first : Device) (s : Vi) (d : Device)
    → d.scl ≡ false
    → d.driven ≡ true
    → Tracks flag first s d
    → Tracks flag first
        (send_bit bit s)
        (record d { sda = driven_as flag bit; value = d.value * 2 + bit_value bit })
unfolding send_bit
send_bit-Tracks flag bit first s d c h t =
    Tracks-eq
      (ap
          (λ k.
            hear_scl flag false (hear_scl flag true (hear_sda flag (if bit then k else not k) d)))
          t.flag_is
        ∙ hear_bit flag bit d c h)
      (set_scl-Tracks false
        (set_scl-Tracks true (set_sda-Tracks (if bit then s.ident_flag else not s.ident_flag) t)))

pub send_bits-Tracks :
    (flag : Bool) (n c : ℕ) (first : Device) (s : Vi) (d : Device)
    → d.scl ≡ false
    → d.driven ≡ true
    → Tracks flag first s d
    → Tracks flag first
        (send_bits n c s)
        (record d { sda = sda_after flag n c d.sda; value = heard_bits n c d.value })
unfolding send_bits sda_after heard_bits
send_bits-Tracks flag zero c first s d l h t = t
send_bits-Tracks flag (suc n) c first s d l h t =
    send_bits-Tracks flag n (c * 2 % 256) first (send_bit (bit_of c 7) s) _ l h
      (send_bit-Tracks flag (bit_of c 7) first s d l h t)

pub readings-send_bits : (n c : ℕ) (s : Vi) → (send_bits n c s).readings ≡ s.readings
unfolding send_bits send_bit set_sda set_scl
readings-send_bits zero c s = refl
readings-send_bits (suc n) c s = readings-send_bits n (c * 2 % 256) (send_bit (bit_of c 7) s)

-- Whether the bytes below `limit` are heard as they are.
spelt_below : ℕ → Bool
spelt_below zero = true
spelt_below (suc limit) = spelt_below limit && (heard_bits 8 limit 0 == limit)

spelt_below_lem : (c limit : ℕ) → spelt_below limit ≡ true → c < limit → heard_bits 8 c 0 ≡ c
unfolding spelt_below
spelt_below_lem c zero all low = elim low [ ]
spelt_below_lem c (suc limit) all low = elim (Bool-cases (c == limit)) [
  | inr earlier ↦ ground (arith, spelt_below_lem c limit)
  | inl last ↦
      let top : c ≡ limit = ground arith in
      let here : heard_bits 8 limit 0 ≡ limit = ground arith in
      ap (λ k. heard_bits 8 k 0) top ∙ here ∙ sym top
]

every_byte : spelt_below 256 ≡ true
unfolding spelt_below heard_bits
every_byte = refl

-- Eight bits of a byte are the byte.
pub heard_byte : (c : ℕ) → c < 256 → heard_bits 8 c 0 ≡ c
heard_byte c h = spelt_below_lem c 256 every_byte h
