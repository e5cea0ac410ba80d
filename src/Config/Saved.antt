-- ===== src/Config/Saved.antt =====
-- src/config.c: the entries that `config_save` writes are lines that can be read.
use moonlight_wii.Prelude.{
  ◌≡◌, refl, Bool, true, false, not, Option, none, some, List, length, arith, ◌&&◌, and-true, ltb,
  ltb→lt,
}
use moonlight_wii.Prelude.Int.{ℤ, is_zero}
use moonlight_wii.Prelude.Text.{Bytes, codes, str_eq}
use moonlight_wii.Config.{Configuration}
use moonlight_wii.Config.Save.{
  Entry, bool_text, encryption_flags_string, entry_if, entry_some, saved_entries,
}
use moonlight_wii.Config.Lines.{
  IsKey, IsPlain, IsEntry, AreEntries, starts_plain, has_no_newline, has_no_space,
}
use moonlight_wii.Config.Numbers.{FitsInt, IsPlain-print_int}

abbrev pub AllPlain : Option Bytes → Type 0
AllPlain none = Unit
AllPlain (some s) = IsPlain s

-- A configuration whose values fit the lines of the file.
pub record IsSavable (c : Configuration) : Type 0 where
  pub width : FitsInt c.width
  pub height : FitsInt c.height
  pub fps : FitsInt c.fps
  pub bitrate : FitsInt c.bitrate
  pub packet_size : FitsInt c.packet_size
  pub rotate : FitsInt c.rotate
  pub osd_overscan : FitsInt c.osd_overscan
  pub app : IsPlain c.app
  pub address : AllPlain c.address
  pub tls_test : AllPlain c.tls_test

IsKey-of : (s : Bytes) → has_no_space s && ltb (length s) 1023 && starts_plain s ≡ true → IsKey s
IsKey-of s h =
    let (a, starts) = and-true _ _ h in
    let (no_space, short) = and-true _ _ a in
    record { no_space = no_space; short = ltb→lt _ _ short; starts = starts }

IsEntry-of :
    {key value : Bytes}
    → has_no_space key && ltb (length key) 1023 && starts_plain key ≡ true
    → IsPlain value
    → IsEntry (key, value)
IsEntry-of k v = record { key = IsKey-of _ k; value = v }

entry_if-AreEntries :
    (b : Bool) (e : Entry) (rest : List Entry)
    → IsEntry e
    → AreEntries rest
    → AreEntries (entry_if b e rest)
entry_if-AreEntries true e rest p q = (p, q)
entry_if-AreEntries false e rest p q = q

entry_some-AreEntries :
    (o : Option Bytes) (key : Bytes) (rest : List Entry)
    → has_no_space key && ltb (length key) 1023 && starts_plain key ≡ true
    → AllPlain o
    → AreEntries rest
    → AreEntries (entry_some o key rest)
entry_some-AreEntries none key rest k p q = q
entry_some-AreEntries (some v) key rest k p q = (IsEntry-of k p, q)

bool_text-IsPlain : (b : Bool) → IsPlain (bool_text b)
unfolding has_no_newline
bool_text-IsPlain true = record { no_newline = refl; short = omega arith; starts = refl }
bool_text-IsPlain false = record { no_newline = refl; short = omega arith; starts = refl }

encryption_flags_string-IsPlain :
    (a v : Bool) → IsPlain (encryption_flags_string (record { audio = a; video = v }))
unfolding encryption_flags_string has_no_newline
encryption_flags_string-IsPlain true true = record {
  no_newline = refl;
  short = omega arith;
  starts = refl;
}
encryption_flags_string-IsPlain true false = record {
  no_newline = refl;
  short = omega arith;
  starts = refl;
}
encryption_flags_string-IsPlain false true = record {
  no_newline = refl;
  short = omega arith;
  starts = refl;
}
encryption_flags_string-IsPlain false false = record {
  no_newline = refl;
  short = omega arith;
  starts = refl;
}

pub saved_entries-AreEntries : (c : Configuration) → IsSavable c → AreEntries (saved_entries c)
unfolding saved_entries has_no_space
saved_entries-AreEntries c p =
    let flag = λ (b : Bool). bool_text-IsPlain b in
    let number = λ (z : ℤ) (h : FitsInt z). IsPlain-print_int z h in
    let encrypt =
      encryption_flags_string-IsPlain c.encryption_flags.audio c.encryption_flags.video in
    entry_some-AreEntries c.address _ _ refl p.address (
      IsEntry-of refl (number c.width p.width),
      (
        IsEntry-of refl (number c.height p.height),
        (
          IsEntry-of refl (number c.fps p.fps),
          (
            IsEntry-of refl (number c.bitrate p.bitrate),
            (
              IsEntry-of refl (number c.packet_size p.packet_size),
              (
                IsEntry-of refl encrypt,
                entry_if-AreEntries (not c.sops) _ _ (IsEntry-of refl (flag c.sops)) (
                    entry_if-AreEntries c.localaudio _ _ (IsEntry-of refl (flag c.localaudio)) (
                      entry_if-AreEntries c.quitappafter _ _ (IsEntry-of refl (flag c.quitappafter))
                        (entry_if-AreEntries c.viewonly _ _ (IsEntry-of refl (flag c.viewonly)) (
                          entry_if-AreEntries (not (is_zero c.rotate)) _ _
                            (IsEntry-of refl (number c.rotate p.rotate))
                            (entry_if-AreEntries (not (is_zero c.osd_overscan)) _ _
                              (IsEntry-of refl (number c.osd_overscan p.osd_overscan))
                              (entry_if-AreEntries (not (str_eq c.app (codes "Steam"))) _ _
                                (IsEntry-of refl p.app)
                                (entry_some-AreEntries c.tls_test _ _ refl p.tls_test tt))))))),
              ),
            ),
          ),
        ),
      ),
    )
