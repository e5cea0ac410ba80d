-- ===== src/Address/Restart.antt =====
-- src/main.c: an address that is entered is there when the program starts again.
use moonlight_wii.Prelude.{
  ℕ, zero, suc, ◌≤◌, ◌≡◌, ◌≢◌, refl, ap, ◌∙◌, Bool, true, false, Option, none, some, Bool-cases,
  inl, inr, List, [], ◌∷◌, ◌==◌, ◌||◌, if◌then◌else◌, length, length-take, get_or, arith,
}
use moonlight_wii.Prelude.Decimal.{is_space}
use mathlib.Core.Path.{subst}
use moonlight_wii.Prelude.Text.{Bytes, codes}
use moonlight_wii.Config.{Configuration, defaults}
use moonlight_wii.Config.Parse.{parsed, config_file_parse}
use moonlight_wii.Config.Save.{config_save}
use moonlight_wii.Config.Lines.{IsPlain, has_no_newline}
use moonlight_wii.Config.Saved.{IsSavable}
use moonlight_wii.Config.RoundTrip.{restored, config_file_parse-config_save}
use moonlight_wii.Menu.{Round, Entered, waiting, cancelled, entered, menu_input_string}
use moonlight_wii.Menu.Texts.{All, All-take}
use moonlight_wii.Menu.Entries.{Gives, menu_input_string-Fine}
use moonlight_wii.Address.{
  Front, deref, free, strdup_address, save_config, trim_end, store_address, or_empty, after_entry,
  enter_address,
}

-- A character that is no white space.
abbrev pub IsInk : ℕ → Type 0
IsInk c = is_space c ≡ false

All-trim_end : (n : ℕ) (s : Bytes) → All IsInk s → All IsInk (trim_end n s)
unfolding trim_end
All-trim_end zero s a = tt
All-trim_end (suc n) s a = elim (Bool-cases (get_or s n 0 == b'.' || get_or s n 0 == b' ')) [
  | inl more ↦ rw more (All-trim_end n s a)
  | inr end ↦ rw end (All-take IsInk (suc n) s a)
]

length-trim_end_le : (n : ℕ) (s : Bytes) → length (trim_end n s) ≤ n
unfolding trim_end
length-trim_end_le zero s = omega arith
length-trim_end_le (suc n) s = elim (Bool-cases (get_or s n 0 == b'.' || get_or s n 0 == b' ')) [
  | inl more ↦ rw more (omega (arith, length-trim_end_le n s))
  | inr end ↦ rw end (omega (arith, length-take (suc n) s))
]

ink_newline : (c : ℕ) → IsInk c → (c == 10) ≡ false
ink_newline c h = ground arith

ink_lines : (s : Bytes) → All IsInk s → has_no_newline s ≡ true
unfolding has_no_newline
ink_lines [] a = refl
ink_lines (c ∷ s) a = ground (arith, ink_newline c, ink_lines s a.1)

IsPlain-ink : (c : ℕ) (s : Bytes) → All IsInk (c ∷ s) → length (c ∷ s) ≤ 4095 → IsPlain (c ∷ s)
IsPlain-ink c s a h = record { no_newline = ink_lines (c ∷ s) a; short = h; starts = rw a.0 refl }

IsSavable-address :
    (c : Configuration) (text : Bytes)
    → IsSavable c
    → IsPlain text
    → IsSavable (record c { address = some text })
IsSavable-address c text p q = record {
  width = p.width;
  height = p.height;
  fps = p.fps;
  bitrate = p.bitrate;
  packet_size = p.packet_size;
  rotate = p.rotate;
  osd_overscan = p.osd_overscan;
  app = p.app;
  address = q;
  tls_test = p.tls_test;
}

-- A front end whose file holds the settings and the address, which is a text that can be read back.
pub record IsSaved (settings : Configuration) (g : Front) : Type 0 where
  pub text : Bytes
  pub shown : deref g g.address ≡ some text
  pub some_text : text ≢ []
  pub file : g.file ≡ config_save (record settings { address = some text })
  pub plain : IsPlain text

stored_at :
    (f : Front) (text : Bytes)
    → (if f.next == f.next then some text else f.blocks f.next) ≡ some text
stored_at f text = ground arith

strdup_IsSaved :
    (f : Front) (text : Bytes)
    → text ≢ []
    → IsPlain text
    → IsSaved f.settings (save_config (strdup_address text f))
unfolding save_config strdup_address deref
strdup_IsSaved f text n p = record {
  text = text;
  shown = ground arith;
  some_text = n;
  file =
      ap (λ (o : Option Bytes). config_save (record f.settings { address = o })) (stored_at f text);
  plain = p;
}

settings-free : (f : Front) (o : Option ℕ) → (free o f).settings ≡ f.settings
unfolding free
settings-free f none = refl
settings-free f (some p) = refl

store_address-IsSaved :
    (text : Bytes) (f g : Front)
    → All IsInk text
    → length text ≤ 4095
    → store_address text f ≡ (true, g)
    → IsSaved f.settings g
unfolding store_address
store_address-IsSaved [] f g a h e = cc
store_address-IsSaved (c ∷ s) f g a h e =
    let made = save_config (strdup_address (c ∷ s) (free f.address f)) in
    let same : made ≡ g = ap (λ (x : Bool × Front). x.1) e in
    let saved = strdup_IsSaved (free f.address f) (c ∷ s) (λ n. cc) (IsPlain-ink c s a h) in
    subst (IsSaved f.settings) same
      (subst (λ (x : Configuration). IsSaved x made) (settings-free f f.address) saved)

after_entry-IsSaved :
    (x : Entered) (f g : Front)
    → Gives (λ out. (length out ≤ 15) × All IsInk out) x
    → after_entry x f ≡ some (true, g)
    → IsSaved f.settings g
unfolding after_entry Gives
after_entry-IsSaved waiting f g q e = cc
after_entry-IsSaved cancelled f g q e = cc
after_entry-IsSaved (entered out) f g q e =
    store_address-IsSaved (trim_end (length out) out) f g (All-trim_end (length out) out q.1)
      (omega (arith, length-trim_end_le (length out) out)) (cc)

-- What the next start finds.
pub record Restarts (files : Bytes → Option Bytes) (depth : ℕ) (name : Bytes) (f g : Front)
    : Type 0 where
  pub text : Bytes
  pub some_text : text ≢ []
  pub shown : deref g g.address ≡ some text
  pub found :
      config_file_parse files (suc depth) name defaults
      ≡ parsed (restored (record f.settings { address = some text }))

digits-IsInk : All IsInk (codes "0123456789.")
digits-IsInk =
    (refl, (refl, (refl, (refl, (refl, (refl, (refl, (refl, (refl, (refl, (refl, tt)))))))))))

-- For a configuration that can be saved, and an address that is not set or holds no white space: when an
-- address has been entered, whatever was pressed, the file that `enter_address` has saved gives it and
-- the settings back when the program starts again, and it is not empty.
pub enter_address-Restarts :
    (files : Bytes → Option Bytes) (depth : ℕ) (name : Bytes) (rounds : List Round) (f g : Front)
    → IsSavable f.settings
    → All IsInk (or_empty (deref f f.address))
    → enter_address rounds f ≡ some (true, g)
    → files name ≡ some g.file
    → Restarts files depth name f g
unfolding enter_address
enter_address-Restarts files depth name rounds f g p a e h =
    let initial = or_empty (deref f f.address) in
    let typed =
      menu_input_string-Fine IsInk (codes "0123456789.") 15 initial rounds digits-IsInk a in
    let saved =
      after_entry-IsSaved (menu_input_string (codes "0123456789.") 15 initial rounds) f g typed e in
    let c = record f.settings { address = some saved.text } in
    record {
      text = saved.text;
      some_text = saved.some_text;
      shown = saved.shown;
      found =
          config_file_parse-config_save files depth name c
            (IsSavable-address f.settings saved.text p saved.plain)
            (h ∙ ap (λ (t : Bytes). some t) saved.file);
    }
