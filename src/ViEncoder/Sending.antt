-- ===== src/ViEncoder/Sending.antt =====
-- What a device hears of the bytes that src/wii/vi_encoder.c sends.
use moonlight_wii.Prelude.{
  ℕ, zero, suc, ◌<◌, ◌≡◌, refl, ap, ◌∙◌, Bool, true, false, not, ◌&&◌, List, [], ◌∷◌, ◌++◌, arith,
  if◌then◌else◌, length, append_assoc, append-nil,
}
use moonlight_wii.ViEncoder.{
  Vi, bit_of, open_i2c, set_scl, set_sda, get_sda, send_bits, acknowledged, answered, take_back,
  first_reading, other_readings, send_bytes,
}
use moonlight_wii.ViEncoder.Bus.{Device, hear_scl, hear_sda}
use moonlight_wii.ViEncoder.Tracking.{Tracks, set_sda-Tracks, set_scl-Tracks, open_i2c-Tracks}
use moonlight_wii.ViEncoder.Bits.{
  Tracks-eq, send_bits-Tracks, readings-send_bits, sda_after, heard_bits, heard_byte,
}

-- What is read after the next `n` bytes lets each of them pass.
unfoldable pub granted : Bool → ℕ → List ℕ → Bool
granted flag zero readings = true
granted flag (suc n) readings =
    not (flag && bit_of (first_reading readings) 15)
    && granted flag n (if flag then other_readings readings else readings)

abbrev read_once : Bool → Vi → Vi
read_once flag s = record s { readings = if flag then other_readings s.readings else s.readings }

-- Without a refusal.
answered_lem :
    (flag : Bool) (s : Vi)
    → flag && bit_of (first_reading s.readings) 15 ≡ false
    → answered flag s ≡ (take_back (read_once flag s), true)
unfolding answered get_sda
answered_lem false s h = refl
answered_lem true s h = rw h refl

hear_ack :
    (flag : Bool) (d : Device)
    → d.scl ≡ false
    → hear_scl flag false
        (record (hear_sda flag (not flag) (hear_scl flag true (record d { driven = false }))) {
          driven = true;
        })
      ≡ record d { driven = true; sda = not flag; bytes = d.bytes ++ d.value ∷ []; value = 0 }
unfolding hear_scl hear_sda
hear_ack flag d c = ground arith

-- A byte that the encoder takes.
pub record Acked (flag : Bool) (n : ℕ) (first : Device) (d : Device) (out : Vi × Bool)
    : Type 0 where
  pub taken : out.1 ≡ true
  pub tracks :
      Tracks flag first out.0
        (record d { driven = true; sda = not flag; bytes = d.bytes ++ d.value ∷ []; value = 0 })
  pub others : granted flag n out.0.readings ≡ true

read_once-Tracks :
    {flag : Bool} {first d : Device} {s : Vi}
    → Tracks flag first s d
    → Tracks flag first (read_once flag s) d
read_once-Tracks t = record {
  heard = t.heard;
  scl_is = t.scl_is;
  sda_is = t.sda_is;
  driven_is = t.driven_is;
  flag_is = t.flag_is;
}

take_back-Tracks :
    {flag : Bool} {first d : Device} {s : Vi}
    → Tracks flag first s d
    → Tracks flag first
        (take_back s)
        (hear_scl flag false (record (hear_sda flag (not flag) d) { driven = true }))
unfolding take_back
take_back-Tracks {flag} {first} {d} {s} t =
    Tracks-eq
      (ap (λ k. hear_scl flag false (record (hear_sda flag (not k) d) { driven = true })) t.flag_is)
      (set_scl-Tracks false (open_i2c-Tracks true (set_sda-Tracks (not s.ident_flag) t)))

grants : (flag x y : Bool) → not (flag && x) && y ≡ true → (flag && x ≡ false) × (y ≡ true)
grants flag x y h = ground arith

acknowledged-Acked :
    (flag : Bool) (n : ℕ) (first : Device) (s : Vi) (d : Device)
    → d.scl ≡ false
    → Tracks flag first s d
    → granted flag (suc n) s.readings ≡ true
    → Acked flag n first d (acknowledged s)
unfolding acknowledged granted
acknowledged-Acked flag n first s d c t g =
    let low = grants flag _ _ g in
    let asked = set_scl true (open_i2c false s) in
    let e : acknowledged s ≡ (take_back (read_once flag asked), true) =
      ap (λ k. answered k asked) t.flag_is
      ∙ answered_lem flag asked (unfold set_scl in unfold open_i2c in low.0) in
    rw e (record {
      taken = refl;
      tracks =
          Tracks-eq (hear_ack flag d c)
            (take_back-Tracks (read_once-Tracks (set_scl-Tracks true (open_i2c-Tracks false t))));
      others = unfold take_back in unfold set_scl in unfold set_sda in unfold open_i2c in low.1;
    })

-- A byte that is sent and taken.
pub send_byte-Acked :
    (flag : Bool) (n c : ℕ) (first : Device) (s : Vi) (d : Device)
    → c < 256
    → d.scl ≡ false
    → d.driven ≡ true
    → d.value ≡ 0
    → Tracks flag first s d
    → granted flag (suc n) s.readings ≡ true
    → Acked flag n first (record d { value = c }) (acknowledged (send_bits 8 c s))
send_byte-Acked flag n c first s d b l h v t g =
    let spelt : heard_bits 8 c d.value ≡ c = ap (heard_bits 8 c) v ∙ heard_byte c b in
    let a =
      acknowledged-Acked flag n first (send_bits 8 c s)
        (record d { sda = sda_after flag 8 c d.sda; value = c }) l
        (Tracks-eq (ap (λ k. record d { sda = sda_after flag 8 c d.sda; value = k }) spelt)
          (send_bits-Tracks flag 8 c first s d l h t))
        (rw (readings-send_bits 8 c s) g) in
    record { taken = a.taken; tracks = a.tracks; others = a.others }

abbrev pub AllBytes : List ℕ → Type 0
AllBytes [] = Unit
AllBytes (c ∷ cs) = (c < 256) × AllBytes cs

-- Bytes that are sent and taken.
pub record Sent (flag : Bool) (first : Device) (d : Device) (cs : List ℕ) (out : Vi × Bool)
    : Type 0 where
  pub taken : out.1 ≡ true
  pub line : Bool
  pub tracks : Tracks flag first out.0 (record d { sda = line; bytes = d.bytes ++ cs; value = 0 })

nothing_sent : (d : Device) → d.value ≡ 0 → d ≡ record d { bytes = d.bytes ++ []; value = 0 }
nothing_sent d v = ground (arith, append-nil d.bytes)

one_sent :
    (d : Device) (c : ℕ) (cs : List ℕ) (line : Bool)
    → d.driven ≡ true
    → ◌≡◌ {A = Device}
        (record d { driven = true; sda = line; bytes = (d.bytes ++ c ∷ []) ++ cs; value = 0 })
        (record d { sda = line; bytes = d.bytes ++ (c ∷ cs); value = 0 })
one_sent d c cs line h = ground (arith, append_assoc d.bytes (c ∷ []) cs)

pub send_bytes-Sent :
    (flag : Bool) (cs : List ℕ) (first : Device) (s : Vi) (d : Device)
    → AllBytes cs
    → d.scl ≡ false
    → d.driven ≡ true
    → d.value ≡ 0
    → Tracks flag first s d
    → granted flag (length cs) s.readings ≡ true
    → Sent flag first d cs (send_bytes cs s)
unfolding send_bytes
send_bytes-Sent flag [] first s d b l h v t g = record {
  taken = refl;
  line = d.sda;
  tracks = Tracks-eq (nothing_sent d v) t;
}
send_bytes-Sent flag (c ∷ cs) first s d b l h v t g =
    let a = send_byte-Acked flag (length cs) c first s d b.0 l h v t g in
    let r =
      send_bytes-Sent flag cs first (acknowledged (send_bits 8 c s)).0 _ b.1 l refl refl a.tracks
        a.others in
    rw a.taken (record {
      taken = r.taken;
      line = r.line;
      tracks = Tracks-eq (one_sent d c cs r.line h) r.tracks;
    })
