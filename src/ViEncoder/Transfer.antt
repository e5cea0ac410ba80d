-- ===== src/ViEncoder/Transfer.antt =====
-- What the video encoder hears of the calls of `VIDEO_SetTrapFilter`, src/wii/vi_encoder.c.
use moonlight_wii.Prelude.{
  ℕ, suc, ◌<◌, ◌≡◌, refl, ap, ◌∙◌, Bool, true, false, not, List, [], ◌∷◌, arith, if◌then◌else◌,
  length,
}
use moonlight_wii.ViEncoder.{
  Vi, open_i2c, set_scl, set_sda, send_slave_address, identify, prepare, close, slave, trap_filter,
  transfer, video_set_trap_filter,
}
use moonlight_wii.ViEncoder.Bus.{Device, hear_scl, hear_sda, hear_all}
use moonlight_wii.ViEncoder.Tracking.{Tracks, set_sda-Tracks, set_scl-Tracks, open_i2c-Tracks}
use moonlight_wii.ViEncoder.Bits.{Tracks-eq}
use moonlight_wii.ViEncoder.Sending.{granted, send_byte-Acked, AllBytes, send_bytes-Sent}

-- The data line at rest before the address, and its fall while the clock is high.
hear_start :
    (flag : Bool) (d : Device)
    → d.sda ≡ flag
    → hear_scl flag false (
        hear_sda flag
          (not flag)
          (hear_sda flag flag (hear_scl flag true (record d { driven = true }))))
      ≡ record d {
        scl = false;
        sda = not flag;
        driven = true;
        value = 0;
        bytes = [];
        is_open = true;
      }
unfolding hear_scl hear_sda
hear_start flag d e = ground arith

hear_close :
    (flag : Bool) (d : Device)
    → d.scl ≡ false
    → hear_sda flag flag (hear_sda flag (not flag) (record d { driven = true }))
      ≡ record d { driven = true; sda = flag }
unfolding hear_sda
hear_close flag d c = ground arith

started-Tracks :
    {flag : Bool} {first d : Device} {s : Vi}
    → d.sda ≡ flag
    → Tracks flag first s d
    → Tracks flag first
        (set_scl false (set_sda (not (prepare s).ident_flag) (prepare s)))
        (record d {
          scl = false;
          sda = not flag;
          driven = true;
          value = 0;
          bytes = [];
          is_open = true;
        })
unfolding prepare
started-Tracks {flag} {first} {d} {s} e t =
    Tracks-eq
      (ap
          (λ k. hear_scl flag false (
            hear_sda flag (not k)
              (hear_sda flag k (hear_scl flag true (record d { driven = true })))))
          t.flag_is
        ∙ hear_start flag d e)
      (set_scl-Tracks false (
        set_sda-Tracks (not s.ident_flag)
          (set_sda-Tracks s.ident_flag (set_scl-Tracks true (open_i2c-Tracks true t)))))

close-Tracks :
    {flag : Bool} {first d : Device} {s : Vi}
    → d.scl ≡ false
    → Tracks flag first s d
    → Tracks flag first (close s) (record d { driven = true; sda = flag })
unfolding close
close-Tracks {flag} {first} {d} {s} c t =
    Tracks-eq
      (ap (λ k. hear_sda flag k (hear_sda flag (not k) (record d { driven = true }))) t.flag_is
        ∙ hear_close flag d c)
      (set_sda-Tracks s.ident_flag (set_sda-Tracks (not s.ident_flag) (open_i2c-Tracks true t)))

-- What a device has heard of a transfer: it is still open.
abbrev pub heard_transfer : Bool → ℕ → List ℕ → Device → Device
heard_transfer flag addr cs d = record d {
  scl = false;
  sda = flag;
  driven = true;
  value = 0;
  bytes = addr ∷ cs;
  is_open = true;
}

readings-prepare : (s : Vi) → (prepare s).readings ≡ s.readings
unfolding prepare open_i2c set_scl set_sda
readings-prepare s = refl

pub transfer-Tracks :
    (flag : Bool) (addr : ℕ) (cs : List ℕ) (first : Device) (s : Vi) (d : Device)
    → addr < 256
    → AllBytes cs
    → d.sda ≡ flag
    → Tracks flag first s d
    → granted flag (suc (length cs)) s.readings ≡ true
    → Tracks flag first (transfer addr cs s) (heard_transfer flag addr cs d)
unfolding transfer send_slave_address
transfer-Tracks flag addr cs first s d h b e t g =
    let a =
      send_byte-Acked flag (length cs) addr first
        (set_scl false (set_sda (not (prepare s).ident_flag) (prepare s)))
        (record d {
          scl = false;
          sda = not flag;
          driven = true;
          value = 0;
          bytes = [];
          is_open = true;
        })
        h refl refl refl (started-Tracks e t)
        (unfold set_scl in unfold set_sda in rw (readings-prepare s) g) in
    let r =
      send_bytes-Sent flag cs first (open_i2c true (send_slave_address addr (prepare s)).0) _ b refl
        refl refl (open_i2c-Tracks true a.tracks) (unfold open_i2c in a.others) in
    rw (a.taken, r.taken) (close-Tracks refl r.tracks)

-- Once the flag is known, the data line rests at it, and the encoder takes each byte where the flag lets
-- it refuse: a device that has followed the lines hears of a call a start, the address 0xe0, the register
-- 3 and whether the filter is on, bit by bit; and it hears no stop, so that the transfer is left open.
pub video_set_trap_filter-heard :
    (flag enable : Bool) (first : Device) (s : Vi) (d : Device)
    → d.sda ≡ flag
    → Tracks flag first (identify s) d
    → granted flag 3 (identify s).readings ≡ true
    → hear_all flag (video_set_trap_filter enable s).writes first
      ≡ heard_transfer flag 0xe0 (3 ∷ (if enable then 1 else 0) ∷ []) d
unfolding video_set_trap_filter
video_set_trap_filter-heard flag true first s d e t g =
    (transfer-Tracks flag slave (trap_filter true) first (identify s) d (omega arith) (omega arith)
      e t g).heard
video_set_trap_filter-heard flag false first s d e t g =
    (transfer-Tracks flag slave (trap_filter false) first (identify s) d (omega arith) (omega arith)
      e t g).heard
