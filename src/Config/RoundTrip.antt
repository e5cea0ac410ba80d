-- ===== src/Config/RoundTrip.antt =====
-- src/config.c: `config_file_parse` reads back what `config_save` wrote.
use moonlight_wii.Prelude.{
  ℕ, zero, suc, ◌≡◌, refl, sym, ap, ◌∙◌, Bool, true, false, not, Option, none, some, List, [], ◌∷◌,
  length, arith, Bool-cases, ◌==◌, inl, inr,
}
use moonlight_wii.Prelude.Int.{ℤ, pos, negsuc, is_zero}
use moonlight_wii.Prelude.Text.{Bytes, codes, str_eq, str_eq→≡}
use moonlight_wii.Prelude.Decimal.{atoi, print_int}
use moonlight_wii.Config.{Configuration, defaults}
use moonlight_wii.Config.Parse.{Parsed, parsed, then_parse, parse_pair, config_file_parse}
use moonlight_wii.Config.Save.{
  Entry, bool_text, encryption_flags_string, entry_if, entry_some, saved_entries, config_save,
  print_entries,
}
use moonlight_wii.Config.Lines.{parse_entries, parse_lines-print_entries}
use moonlight_wii.Config.Saved.{IsSavable, saved_entries-AreEntries}
use moonlight_wii.Config.Numbers.{FitsInt, atoi-print_int}

-- The configuration with every value of the file's.
unfoldable pub restored : Configuration → Configuration
restored c = record defaults {
  address = c.address;
  width = c.width;
  height = c.height;
  fps = c.fps;
  bitrate = c.bitrate;
  packet_size = c.packet_size;
  encryption_flags = c.encryption_flags;
  sops = c.sops;
  localaudio = c.localaudio;
  quitappafter = c.quitappafter;
  viewonly = c.viewonly;
  rotate = c.rotate;
  osd_overscan = c.osd_overscan;
  app = c.app;
  tls_test = c.tls_test;
}

suc_nonzero : (n : ℕ) → (suc n == 0) ≡ false
suc_nonzero n = ground arith

module _ (nested : Bytes → Configuration → Parsed) where
  encrypt_lem :
      (a v : Bool) (c : Configuration)
      → parse_pair nested
          (codes "encrypt")
          (encryption_flags_string (record { audio = a; video = v }))
          c
        ≡ parsed (record c { encryption_flags = record { audio = a; video = v } })
  unfolding parse_pair encryption_flags_string
  encrypt_lem true true c = refl
  encrypt_lem true false c = refl
  encrypt_lem false true c = refl
  encrypt_lem false false c = refl

  no_entry : (c : Configuration) → parse_entries nested [] c ≡ parsed c
  unfolding parse_entries
  no_entry c = refl

  entry :
      (e : Entry) (rest : List Entry) (c c' : Configuration)
      → parse_pair nested e.0 e.1 c ≡ parsed c'
      → parse_entries nested (e ∷ rest) c ≡ parse_entries nested rest c'
  unfolding parse_entries
  entry e rest c c' step = ap (λ r. then_parse r (parse_entries nested rest)) step

  module _ (key : Bytes) (rest : List Entry) (c : Configuration) where
    int_entry :
        (set : ℤ → Configuration → Configuration) (z : ℤ)
        → ((v : Bytes) → parse_pair nested key v c ≡ parsed (set (atoi v) c))
        → FitsInt z
        → parse_entries nested ((key, print_int z) ∷ rest) c ≡ parse_entries nested rest (set z c)
    unfolding parse_entries
    int_entry set z step fits =
        ap (λ r. then_parse r (parse_entries nested rest)) (step (print_int z))
        ∙ ap (λ k. parse_entries nested rest (set k c)) (atoi-print_int z fits)

    nonzero_entry :
        (set : ℤ → Configuration → Configuration) (z : ℤ)
        → ((v : Bytes) → parse_pair nested key v c ≡ parsed (set (atoi v) c))
        → FitsInt z
        → c ≡ set (pos 0) c
        → parse_entries nested (entry_if (not (is_zero z)) (key, print_int z) rest) c
          ≡ parse_entries nested rest (set z c)
    nonzero_entry set (pos zero) step fits same = ap (parse_entries nested rest) same
    nonzero_entry set (pos (suc n)) step fits same =
        ap (λ b. parse_entries nested (entry_if (not b) (key, print_int (pos (suc n))) rest) c)
          (suc_nonzero n)
        ∙ int_entry set (pos (suc n)) step fits
    nonzero_entry set (negsuc n) step fits same = int_entry set (negsuc n) step fits

    flag_entry :
        (set : Bool → Configuration → Configuration) (b : Bool)
        → parse_pair nested key (codes "true") c ≡ parsed (set true c)
        → c ≡ set false c
        → parse_entries nested (entry_if b (key, bool_text b) rest) c
          ≡ parse_entries nested rest (set b c)
    unfolding parse_entries
    flag_entry set true step same = ap (λ r. then_parse r (parse_entries nested rest)) step
    flag_entry set false step same = ap (parse_entries nested rest) same

    off_entry :
        (set : Bool → Configuration → Configuration) (b : Bool)
        → parse_pair nested key (codes "false") c ≡ parsed (set false c)
        → c ≡ set true c
        → parse_entries nested (entry_if (not b) (key, bool_text b) rest) c
          ≡ parse_entries nested rest (set b c)
    unfolding parse_entries
    off_entry set false step same = ap (λ r. then_parse r (parse_entries nested rest)) step
    off_entry set true step same = ap (parse_entries nested rest) same

    some_entry :
        (set : Option Bytes → Configuration → Configuration) (o : Option Bytes)
        → ((v : Bytes) → parse_pair nested key v c ≡ parsed (set (some v) c))
        → c ≡ set none c
        → parse_entries nested (entry_some o key rest) c ≡ parse_entries nested rest (set o c)
    unfolding parse_entries
    some_entry set none step same = ap (parse_entries nested rest) same
    some_entry set (some v) step same = ap (λ r. then_parse r (parse_entries nested rest)) (step v)

    differing_entry :
        (set : Bytes → Configuration → Configuration) (s t : Bytes)
        → ((v : Bytes) → parse_pair nested key v c ≡ parsed (set v c))
        → c ≡ set t c
        → parse_entries nested (entry_if (not (str_eq s t)) (key, s) rest) c
          ≡ parse_entries nested rest (set s c)
    unfolding parse_entries
    differing_entry set s t step same = elim (Bool-cases (str_eq s t)) [
      | inl e ↦
          rw e (ap (parse_entries nested rest) (same ∙ ap (λ v. set v c) (sym (str_eq→≡ s t e))))
      | inr e ↦ rw e (ap (λ r. then_parse r (parse_entries nested rest)) (step s))
    ]

  parse_entries-saved_entries :
      (c : Configuration)
      → IsSavable c
      → parse_entries nested (saved_entries c) defaults ≡ parsed (restored c)
  unfolding saved_entries restored
  parse_entries-saved_entries c p =
      unfold parse_pair in
      some_entry _ _ _ (λ o d. record d { address = o }) c.address (λ v. refl) refl
      ∙ int_entry _ _ _ (λ z d. record d { width = z }) c.width (λ v. refl) p.width
      ∙ int_entry _ _ _ (λ z d. record d { height = z }) c.height (λ v. refl) p.height
      ∙ int_entry _ _ _ (λ z d. record d { fps = z }) c.fps (λ v. refl) p.fps
      ∙ int_entry _ _ _ (λ z d. record d { bitrate = z }) c.bitrate (λ v. refl) p.bitrate
      ∙ int_entry _ _ _ (λ z d. record d { packet_size = z }) c.packet_size (λ v. refl)
          p.packet_size
      ∙ entry _ _ _ _ (encrypt_lem c.encryption_flags.audio c.encryption_flags.video _)
      ∙ off_entry _ _ _ (λ b d. record d { sops = b }) c.sops refl refl
      ∙ flag_entry _ _ _ (λ b d. record d { localaudio = b }) c.localaudio refl refl
      ∙ flag_entry _ _ _ (λ b d. record d { quitappafter = b }) c.quitappafter refl refl
      ∙ flag_entry _ _ _ (λ b d. record d { viewonly = b }) c.viewonly refl refl
      ∙ nonzero_entry _ _ _ (λ z d. record d { rotate = z }) c.rotate (λ v. refl) p.rotate refl
      ∙ nonzero_entry _ _ _ (λ z d. record d { osd_overscan = z }) c.osd_overscan (λ v. refl)
          p.osd_overscan refl
      ∙ differing_entry _ _ _ (λ s d. record d { app = s }) c.app (codes "Steam") (λ v. refl) refl
      ∙ some_entry _ _ _ (λ o d. record d { tls_test = o }) c.tls_test (λ v. refl) refl
      ∙ no_entry _

-- A saved configuration whose numbers are of type `int` and whose texts hold no newline, are not empty,
-- begin with no space and have at most 4095 characters is read back: parsing the file that
-- `config_save` writes, on top of the defaults, gives the defaults with every value that the file
-- holds, also those that are left out of it because they have their default.
pub config_file_parse-config_save :
    (files : Bytes → Option Bytes) (depth : ℕ) (name : Bytes) (c : Configuration)
    → IsSavable c
    → files name ≡ some (config_save c)
    → config_file_parse files (suc depth) name defaults ≡ parsed (restored c)
unfolding config_file_parse config_save
config_file_parse-config_save files depth name c p h =
    rw (config_file_parse, h)
      (parse_lines-print_entries (config_file_parse files depth)
          (length (print_entries (saved_entries c))) (saved_entries c) defaults
          (saved_entries-AreEntries c p) (omega arith)
        ∙ parse_entries-saved_entries (config_file_parse files depth) c p)
