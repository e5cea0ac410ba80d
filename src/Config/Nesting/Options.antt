-- ===== src/Config/Nesting/Options.antt =====
-- src/config.c: only the option "config" can end for want of depth.
use moonlight_wii.Prelude.{
  ℕ, leb, ◌≡◌, refl, sym, ap, ◌∙◌, Bool, true, ◌&&◌, Option, none, some, List, [], ◌∷◌, length,
  arith, Bool-cases, inl, inr, ◌==◌, Option-cases, if◌then◌else◌, and-true,
}
use mathlib.Core.Path.{subst}
use moonlight_wii.Prelude.Text.{Bytes, codes, str_eq, str_eq→≡}
use moonlight_wii.Config.{Configuration, max_inputs}
use moonlight_wii.Config.Parse.{
  Parsed, parsed, cannot_open, exited, too_deep, then_parse, add_input, add_positional,
  parse_argument, or_exit, LongOption, try_option, try_options, long_options, parse_pair,
}

-- The call does not stop for want of depth.
unfoldable pub Ends : Parsed → Type 0
Ends (parsed c) = Unit
Ends cannot_open = Unit
Ends exited = Unit
Ends too_deep = ⊥

pub Ends-then_parse :
    (r : Parsed) (k : Configuration → Parsed)
    → Ends r
    → ((c : Configuration) → Ends (k c))
    → Ends (then_parse r k)
unfolding Ends
Ends-then_parse (parsed c) k h step = step c
Ends-then_parse cannot_open k h step = tt
Ends-then_parse exited k h step = tt
Ends-then_parse too_deep k h step = h

Ends-or_exit : (r : Parsed) → Ends r → Ends (or_exit r)
unfolding Ends
Ends-or_exit (parsed c) h = tt
Ends-or_exit cannot_open h = tt
Ends-or_exit exited h = tt
Ends-or_exit too_deep h = h

Ends-add_input : (v : Bytes) (c : Configuration) → Ends (add_input v c)
unfolding add_input Ends
Ends-add_input v c = elim (Bool-cases (leb max_inputs (length c.inputs))) [
  | inl full ↦ rw (add_input, full) tt
  | inr room ↦ rw (add_input, room) tt
]

Ends-add_positional : (v : Bytes) (c : Configuration) → Ends (add_positional v c)
unfolding add_positional Ends
Ends-add_positional v c = elim (Option-cases c.action) [
  | inl e ↦ rw (add_positional, e) tt
  | inr (a, e) ↦ elim (Option-cases c.address) [
    | inl k ↦ rw (add_positional, e, k) tt
    | inr (b, k) ↦ rw (add_positional, e, k) tt
  ]
]

-- Only the option "config" leads to another file.
abbrev is_config_only : LongOption → Bool
is_config_only o = if o.val == b'o' then str_eq o.name (codes "config") else true

unfoldable all_config_only : List LongOption → Bool
unfolding str_eq
all_config_only [] = true
all_config_only (o ∷ os) = is_config_only o && all_config_only os

long_options-config_only : all_config_only long_options ≡ true
unfolding all_config_only
long_options-config_only = refl

some_inj : (a b : Bytes) → some a ≡ some b → a ≡ b
some_inj a b e = cc

module _ (nested : Bytes → Configuration → Parsed) where
  Ends-parse_argument :
      (o : ℕ) (v : Option Bytes) (c : Configuration)
      → ((t : Bytes) → v ≡ some t → (o == b'o') ≡ true → Ends (nested t c))
      → Ends (parse_argument nested o v c)
  unfolding parse_argument Ends
  Ends-parse_argument o none c h = tt
  Ends-parse_argument o (some v) c h = elim (Bool-cases (o == b'j')) [
    | inl e ↦ rw (parse_argument, e) (Ends-add_input v c)
    | inr e ↦ elim (Bool-cases (o == b'o')) [
      | inl f ↦ rw (parse_argument, e, f) (Ends-or_exit (nested v c) (h v refl f))
      | inr f ↦ elim (Bool-cases (o == 1)) [
        | inl g ↦ rw (parse_argument, e, f, g) (Ends-add_positional v c)
        | inr g ↦ rw (parse_argument, e, f, g) tt
      ]
    ]
  ]

  -- Where the key is "config", the file that the value names ends.
  abbrev EndsAt : Bytes → Bytes → Type 0
  EndsAt key value =
      str_eq (codes "config") key ≡ true → (c : Configuration) → Ends (nested value c)

  config_key :
      (o : LongOption) (key : Bytes)
      → is_config_only o ≡ true
      → (o.val == b'o') ≡ true
      → str_eq o.name key ≡ true
      → str_eq (codes "config") key ≡ true
  config_key o key only e same =
      let named : str_eq o.name (codes "config") ≡ true = ground arith in
      let name : o.name ≡ codes "config" = str_eq→≡ o.name (codes "config") named in
      ap (λ (n : Bytes). str_eq n key) (sym name) ∙ same

  Ends-try_option :
      (o : LongOption) (key value : Bytes) (c : Configuration)
      → is_config_only o ≡ true
      → EndsAt key value
      → Ends (try_option nested o key value c)
  unfolding try_option Ends
  Ends-try_option o key value c only h = elim (Bool-cases (str_eq o.name key)) [
    | inl e ↦ elim (Bool-cases o.has_arg) [
      | inl f ↦
          rw (try_option, e, f)
            (Ends-parse_argument o.val (some value) c (λ t at is_o.
              subst (λ (x : Bytes). Ends (nested x c)) (some_inj value t at)
                (h (config_key o key only is_o e) c)))
      | inr f ↦ elim (Bool-cases (str_eq (codes "true") value)) [
        | inl g ↦ rw (try_option, e, f, g) (Ends-parse_argument o.val none c (λ t at is_o. cc))
        | inr g ↦ rw (try_option, e, f, g) tt
      ]
    ]
    | inr e ↦ rw (try_option, e) tt
  ]

  Ends-try_options :
      (os : List LongOption) (key value : Bytes) (c : Configuration)
      → all_config_only os ≡ true
      → EndsAt key value
      → Ends (try_options nested os key value c)
  unfolding try_options Ends all_config_only
  Ends-try_options [] key value c only h = tt
  Ends-try_options (o ∷ os) key value c only h =
      let parts = and-true (is_config_only o) (all_config_only os) only in
      Ends-then_parse (try_option nested o key value c) (try_options nested os key value)
        (Ends-try_option o key value c parts.0 h) (λ d. Ends-try_options os key value d parts.1 h)

  pub Ends-parse_pair :
      (key value : Bytes) (c : Configuration)
      → EndsAt key value
      → Ends (parse_pair nested key value c)
  unfolding parse_pair Ends
  Ends-parse_pair key value c h = elim (Bool-cases (str_eq key (codes "address"))) [
    | inl e ↦ rw (parse_pair, e) tt
    | inr e ↦ elim (Bool-cases (str_eq key (codes "sops"))) [
      | inl f ↦ rw (parse_pair, e, f) tt
      | inr f ↦
          rw (parse_pair, e, f)
            (Ends-try_options long_options key value c long_options-config_only h)
    ]
  ]
