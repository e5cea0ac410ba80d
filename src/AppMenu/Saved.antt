-- ===== src/AppMenu/Saved.antt =====
-- src/main.c and src/config.c: what `settings_menu` sets survives a restart.
use moonlight_wii.Prelude.{
  ℕ, zero, suc, ◌≡◌, ap, ◌∙◌, Bool, true, false, Option, some, List, [], ◌∷◌, ◌==◌, if◌then◌else◌,
  get_or, arith,
}
use moonlight_wii.Prelude.Int.{ℤ, pos, negsuc}
use moonlight_wii.Prelude.Text.{Bytes}
use moonlight_wii.Config.{Configuration, Encryption, defaults}
use moonlight_wii.Config.Parse.{parsed, config_file_parse}
use moonlight_wii.Config.Save.{config_save}
use moonlight_wii.Config.Numbers.{FitsInt}
use moonlight_wii.Config.Saved.{IsSavable}
use moonlight_wii.Config.RoundTrip.{restored, config_file_parse-config_save}
use moonlight_wii.AppMenu.Chosen.{as_chosen, settings_menu-chosen}
use moonlight_wii.AppMenu.Settings.{
  widths, heights, encryption_of, is_positive, set_value, set_result, Selection, settings_menu,
}

with_settings :
    (c : Configuration) (w h f b o : ℤ) (x y z : Bool) (e : Encryption)
    → IsSavable c
    → FitsInt w
    → FitsInt h
    → FitsInt f
    → FitsInt b
    → FitsInt o
    → IsSavable (record c {
      width = w;
      height = h;
      fps = f;
      bitrate = b;
      osd_overscan = o;
      viewonly = x;
      localaudio = y;
      quitappafter = z;
      encryption_flags = e;
    })
with_settings c w h f b o x y z e p pw ph pf pb po = record {
  width = pw;
  height = ph;
  fps = pf;
  bitrate = pb;
  packet_size = p.packet_size;
  rotate = p.rotate;
  osd_overscan = po;
  app = p.app;
  address = p.address;
  tls_test = p.tls_test;
}

widths_fit : (v : ℕ) → FitsInt (pos (get_or widths v 0))
unfolding FitsInt
widths_fit zero = omega arith
widths_fit (suc zero) = omega arith
widths_fit (suc (suc zero)) = omega arith
widths_fit (suc (suc (suc zero))) = omega arith
widths_fit (suc (suc (suc (suc v)))) = omega arith

heights_fit : (v : ℕ) → FitsInt (pos (get_or heights v 0))
unfolding FitsInt
heights_fit zero = omega arith
heights_fit (suc zero) = omega arith
heights_fit (suc (suc zero)) = omega arith
heights_fit (suc (suc (suc zero))) = omega arith
heights_fit (suc (suc (suc (suc v)))) = omega arith

with_numbers :
    (c : Configuration) (f b o : ℤ)
    → IsSavable c
    → FitsInt f
    → FitsInt b
    → FitsInt o
    → IsSavable (record c { fps = f; bitrate = b; osd_overscan = o })
with_numbers c f b o p =
    with_settings c c.width c.height f b o c.viewonly c.localaudio c.quitappafter c.encryption_flags
      p p.width p.height

with_flags :
    (c : Configuration) (x y z : Bool) (e : Encryption)
    → IsSavable c
    → IsSavable (record c { viewonly = x; localaudio = y; quitappafter = z; encryption_flags = e })
with_flags c x y z e p =
    with_settings c c.width c.height c.fps c.bitrate c.osd_overscan x y z e p p.width p.height p.fps
      p.bitrate p.osd_overscan

with_resolution :
    (c : Configuration) (v : ℕ)
    → IsSavable c
    → IsSavable (record c { width = pos (get_or widths v 0); height = pos (get_or heights v 0) })
with_resolution c v p =
    with_settings c _ _ c.fps c.bitrate c.osd_overscan c.viewonly c.localaudio c.quitappafter
      c.encryption_flags p (widths_fit v) (heights_fit v) p.fps p.bitrate p.osd_overscan

if_IsSavable :
    (b : Bool) (c d : Configuration) → IsSavable c → IsSavable d → IsSavable (if b then c else d)
if_IsSavable true c d p q = p
if_IsSavable false c d p q = q

set_value-IsSavable :
    (sel v : ℕ) (c : Configuration) → FitsInt (pos v) → IsSavable c → IsSavable (set_value sel v c)
unfolding set_value
set_value-IsSavable sel v c h p = if_IsSavable (sel == 0) _ _ (with_resolution c v p) (
    if_IsSavable (sel == 1) _ _
      (if_IsSavable (is_positive v) _ _
        (with_numbers c (pos v) c.bitrate c.osd_overscan p h p.bitrate p.osd_overscan) p)
      (if_IsSavable (sel == 2) _ _
        (if_IsSavable (is_positive v) _ _
          (with_numbers c c.fps (pos v) c.osd_overscan p p.fps h p.osd_overscan) p)
        (if_IsSavable (sel == 3) _ _
          (with_flags c (is_positive v) c.localaudio c.quitappafter c.encryption_flags p)
          (if_IsSavable (sel == 4) _ _
            (with_flags c c.viewonly (is_positive v) c.quitappafter c.encryption_flags p)
            (if_IsSavable (sel == 5) _ _
              (with_flags c c.viewonly c.localaudio (is_positive v) c.encryption_flags p)
              (if_IsSavable (sel == 6) _ _
                (with_numbers c c.fps c.bitrate (pos v) p p.fps p.bitrate h)
                (if_IsSavable (sel == 7) _ _
                  (with_flags c c.viewonly c.localaudio c.quitappafter (encryption_of v) p) p)))))))

set_result-IsSavable :
    (sel : ℕ) (v : ℤ) (c : Configuration) → FitsInt v → IsSavable c → IsSavable (set_result sel v c)
set_result-IsSavable sel (pos v) c h p = set_value-IsSavable sel v c h p
set_result-IsSavable sel (negsuc n) c h p = p

-- What the menus return are values of type `int`.
abbrev pub AllFit : List Selection → Type 0
AllFit [] = Unit
AllFit (s ∷ selections) = FitsInt s.1 × AllFit selections

settings_menu-IsSavable :
    (selections : List Selection) (c : Configuration)
    → AllFit selections
    → IsSavable c
    → IsSavable (settings_menu selections c)
unfolding settings_menu
settings_menu-IsSavable [] c h p = p
settings_menu-IsSavable ((pos sel, v) ∷ selections) c h p =
    settings_menu-IsSavable selections (set_result sel v c) h.1 (set_result-IsSavable sel v c h.0 p)
settings_menu-IsSavable ((negsuc n, v) ∷ selections) c h p = p

-- For a configuration that can be saved and menus that return values of type `int`: the file that is saved
-- behind the menu of settings gives back, when the program starts again, what was chosen last for each
-- setting. Parsing it on top of the defaults gives the defaults with the values of the configuration in
-- which the resolution, the frame rate and the bitrate (a rate of 0 says nothing), the three switches, the
-- overscan and the encryption are those last chosen, as the menus name them, before the menu was left, and
-- every other setting is as it was.
pub settings_menu-restored :
    (files : Bytes → Option Bytes) (depth : ℕ) (name : Bytes) (selections : List Selection)
    (c : Configuration)
    → AllFit selections
    → IsSavable c
    → files name ≡ some (config_save (settings_menu selections c))
    → config_file_parse files (suc depth) name defaults ≡ parsed (restored (as_chosen selections c))
settings_menu-restored files depth name selections c h p e =
    config_file_parse-config_save files depth name (settings_menu selections c)
      (settings_menu-IsSavable selections c h p) e
    ∙ ap (λ d. parsed (restored d)) (settings_menu-chosen selections c)
