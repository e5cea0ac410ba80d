-- ===== src/ViEncoder/Tracking.antt =====
-- A device keeps track of the I2C lines that src/wii/vi_encoder.c moves, store by store.
use moonlight_wii.Prelude.{ℕ, ◌≡◌, ap, sym, ◌∙◌, Bool, true, false, List, [], ◌∷◌, ◌++◌, arith}
use moonlight_wii.ViEncoder.{Vi, set_bit, bit_of, open_i2c, set_scl, set_sda}
use moonlight_wii.ViEncoder.Bus.{Device, hear_scl, hear_sda, hear, hear_all, hear_all-append}

set_bit_same14 : (n : ℕ) (v : Bool) → bit_of (set_bit n 14 v) 14 ≡ v
set_bit_same14 n true = ground arith
set_bit_same14 n false = ground arith

set_bit_same15 : (n : ℕ) (v : Bool) → bit_of (set_bit n 15 v) 15 ≡ v
set_bit_same15 n true = ground arith
set_bit_same15 n false = ground arith

set_bit_other15 : (n : ℕ) (v : Bool) → bit_of (set_bit n 14 v) 15 ≡ bit_of n 15
set_bit_other15 n true = ground arith
set_bit_other15 n false = ground arith

set_bit_other14 : (n : ℕ) (v : Bool) → bit_of (set_bit n 15 v) 14 ≡ bit_of n 14
set_bit_other14 n true = ground arith
set_bit_other14 n false = ground arith

-- The device knows the lines, and has heard what was stored.
pub record Tracks (flag : Bool) (first : Device) (s : Vi) (d : Device) : Type 0 where
  pub heard : hear_all flag s.writes first ≡ d
  pub scl_is : bit_of s.lines 14 ≡ d.scl
  pub sda_is : bit_of s.lines 15 ≡ d.sda
  pub driven_is : bit_of s.direction 15 ≡ d.driven
  pub flag_is : s.ident_flag ≡ flag

-- A device that hears what it knows hears nothing.
same_scl : (flag : Bool) (d : Device) → hear_scl flag d.scl d ≡ d
unfolding hear_scl
same_scl flag d = ground arith

same_sda : (flag : Bool) (d : Device) → hear_sda flag d.sda d ≡ d
unfolding hear_sda
same_sda flag d = ground arith

scl-hear_sda : (flag v : Bool) (d : Device) → (hear_sda flag v d).scl ≡ d.scl
unfolding hear_sda
scl-hear_sda flag v d = ground arith

-- A store that moves the data line, the clock line, and one that changes who drives.
hear_data :
    (flag v : Bool) (lines direction : ℕ) (d : Device)
    → bit_of lines 14 ≡ d.scl
    → bit_of lines 15 ≡ v
    → bit_of direction 15 ≡ d.driven
    → hear flag (lines, direction) d ≡ hear_sda flag v d
unfolding hear
hear_data flag v lines direction d c e h =
    ap
      (λ k.
        hear_scl flag (bit_of lines 14) (hear_sda flag (bit_of lines 15) (record d { driven = k })))
      h
    ∙ ap (λ k. hear_scl flag (bit_of lines 14) (hear_sda flag k d)) e
    ∙ ap (λ k. hear_scl flag k (hear_sda flag v d)) (c ∙ sym (scl-hear_sda flag v d))
    ∙ same_scl flag (hear_sda flag v d)

hear_clock :
    (flag v : Bool) (lines direction : ℕ) (d : Device)
    → bit_of lines 14 ≡ v
    → bit_of lines 15 ≡ d.sda
    → bit_of direction 15 ≡ d.driven
    → hear flag (lines, direction) d ≡ hear_scl flag v d
unfolding hear
hear_clock flag v lines direction d c e h =
    ap
      (λ k.
        hear_scl flag (bit_of lines 14) (hear_sda flag (bit_of lines 15) (record d { driven = k })))
      h
    ∙ ap (λ k. hear_scl flag (bit_of lines 14) (hear_sda flag k d)) e
    ∙ ap (hear_scl flag (bit_of lines 14)) (same_sda flag d)
    ∙ ap (λ k. hear_scl flag k d) c

hear_direction :
    (flag v : Bool) (lines direction : ℕ) (d : Device)
    → bit_of lines 14 ≡ d.scl
    → bit_of lines 15 ≡ d.sda
    → bit_of direction 15 ≡ v
    → hear flag (lines, direction) d ≡ record d { driven = v }
unfolding hear
hear_direction flag v lines direction d c e h =
    hear_clock flag d.scl lines direction (record d { driven = v }) c e h
    ∙ same_scl flag (record d { driven = v })

driven-hear_sda : (flag v : Bool) (d : Device) → (hear_sda flag v d).driven ≡ d.driven
unfolding hear_sda
driven-hear_sda flag v d = ground arith

driven-hear_scl : (flag v : Bool) (d : Device) → (hear_scl flag v d).driven ≡ d.driven
unfolding hear_scl
driven-hear_scl flag v d = ground arith

sda-hear_scl : (flag v : Bool) (d : Device) → (hear_scl flag v d).sda ≡ d.sda
unfolding hear_scl
sda-hear_scl flag v d = ground arith

one_more :
    (flag : Bool) (ws : List (ℕ × ℕ)) (w : ℕ × ℕ) (first : Device) {d d' : Device}
    → hear_all flag ws first ≡ d
    → hear flag w d ≡ d'
    → hear_all flag (ws ++ w ∷ []) first ≡ d'
unfolding hear_all
one_more flag ws w first p q = hear_all-append flag ws (w ∷ []) first ∙ ap (hear flag w) p ∙ q

module _ {flag : Bool} {first : Device} {s : Vi} {d : Device} (v : Bool)
    (t : Tracks flag first s d) where
  pub set_sda-Tracks : Tracks flag first (set_sda v s) (hear_sda flag v d)
  unfolding set_sda
  set_sda-Tracks =
      let c = set_bit_other14 s.lines v ∙ t.scl_is in
      let e = set_bit_same15 s.lines v in
      record {
        heard = one_more flag s.writes _ first t.heard (hear_data flag v _ _ d c e t.driven_is);
        scl_is = c ∙ sym (scl-hear_sda flag v d);
        sda_is = unfold hear_sda in e;
        driven_is = t.driven_is ∙ sym (driven-hear_sda flag v d);
        flag_is = t.flag_is;
      }

  pub set_scl-Tracks : Tracks flag first (set_scl v s) (hear_scl flag v d)
  unfolding set_scl
  set_scl-Tracks =
      let c = set_bit_same14 s.lines v in
      let e = set_bit_other15 s.lines v ∙ t.sda_is in
      record {
        heard = one_more flag s.writes _ first t.heard (hear_clock flag v _ _ d c e t.driven_is);
        scl_is = unfold hear_scl in c;
        sda_is = e ∙ sym (sda-hear_scl flag v d);
        driven_is = t.driven_is ∙ sym (driven-hear_scl flag v d);
        flag_is = t.flag_is;
      }

  pub open_i2c-Tracks : Tracks flag first (open_i2c v s) (record d { driven = v })
  unfolding open_i2c
  open_i2c-Tracks =
      let h = set_bit_same15 (set_bit s.direction 14 true) v in
      record {
        heard =
            one_more flag s.writes _ first t.heard
              (hear_direction flag v _ _ d t.scl_is t.sda_is h);
        scl_is = t.scl_is;
        sda_is = t.sda_is;
        driven_is = h;
        flag_is = t.flag_is;
      }
