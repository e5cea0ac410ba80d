-- ===== src/IosReload/Arguments.antt =====
-- Which IOS the arguments of the program load.
use moonlight_wii.Prelude.{
  ℕ, suc, ◌≡◌, refl, ap, ◌∙◌, Bool, true, false, ◌&&◌, not, none, some, List, [], ◌∷◌, ◌++◌, ◌==◌,
  arith, Bool-cases, inl, inr,
}
use moonlight_wii.Prelude.Int.{ℤ, pos, negsuc}
use moonlight_wii.Prelude.Text.{Bytes, codes, str_eq}
use moonlight_wii.Prelude.Decimal.{
  print_int, print_nat, StartsWithDigit, StartsWithDigit-print_digits,
}
use moonlight_wii.Config.Numbers.{FitsInt, atoi-print_int}
use moonlight_wii.IosReload.{
  Ios, ios_initial, is_delimiter, split_key, skip_delimiters, handle_config_pair,
  handle_config_pairs, handle_ios_reload,
}

-- An argument for the IOS: "ios", and behind it nothing or a delimiter.
unfoldable pub ends_key : Bytes → Bool
ends_key [] = true
ends_key (c ∷ s) = is_delimiter c

unfoldable pub names_ios : Bytes → Bool
unfolding ends_key
names_ios (a ∷ b ∷ c ∷ s) = a == b'i' && (b == b'o' && (c == b's' && ends_key s))
names_ios _ = false

unfoldable pub none_names_ios : List Bytes → Bool
unfolding names_ios
none_names_ios [] = true
none_names_ios (kv ∷ argv) = not (names_ios kv) && none_names_ios argv

empty_key : (room : ℕ) (s : Bytes) → str_eq (split_key (suc room) s).0 [] ≡ ends_key s
unfolding split_key str_eq ends_key
empty_key room [] = refl
empty_key room (c ∷ s) = elim (Bool-cases (is_delimiter c)) [
  | inl e ↦ rw e refl
  | inr e ↦ rw e refl
]

-- A delimiter is no other character.
apart : (c d : ℕ) → is_delimiter c ≡ true → is_delimiter d ≡ false → (c == d) ≡ false
apart c d e h = ground arith

key_cons :
    (room c d : ℕ) (s t : Bytes)
    → is_delimiter d ≡ false
    → str_eq (split_key (suc room) (c ∷ s)).0 (d ∷ t) ≡ (c == d && str_eq (split_key room s).0 t)
unfolding split_key str_eq
key_cons room c d s t h = elim (Bool-cases (is_delimiter c)) [
  | inl e ↦ rw e (ground (arith, apart c d e h))
  | inr e ↦ rw e refl
]

and_false : (x : Bool) → (x && false) ≡ false
and_false x = ground arith

-- The key is "ios" for the arguments that name the IOS.
ios_key : (kv : Bytes) → str_eq (split_key 63 kv).0 (codes "ios") ≡ names_ios kv
unfolding names_ios split_key str_eq
ios_key [] = refl
ios_key (a ∷ []) = key_cons 62 a b'i' [] (codes "os") refl ∙ and_false (a == b'i')
ios_key (a ∷ b ∷ []) =
    key_cons 62 a b'i' (b ∷ []) (codes "os") refl
    ∙ ap (λ t. a == b'i' && t) (key_cons 61 b b'o' [] (codes "s") refl ∙ and_false (b == b'o'))
    ∙ and_false (a == b'i')
ios_key (a ∷ b ∷ c ∷ s) =
    key_cons 62 a b'i' (b ∷ c ∷ s) (codes "os") refl
    ∙ ap (λ t. a == b'i' && t)
        (key_cons 61 b b'o' (c ∷ s) (codes "s") refl
          ∙ ap (λ t. b == b'o' && t)
              (key_cons 60 c b's' s [] refl ∙ ap (λ t. c == b's' && t) (empty_key 59 s)))

handle_config_pair-other :
    (kv : Bytes) (s : Ios) → names_ios kv ≡ false → handle_config_pair kv s ≡ s
unfolding handle_config_pair
handle_config_pair-other kv s h = rw (ios_key kv, h) refl

not_and : (x y : Bool) → (not x && y) ≡ true → (x ≡ false) × (y ≡ true)
not_and x y h = ground arith

handle_config_pairs-others :
    (argv : List Bytes) (s : Ios) → none_names_ios argv ≡ true → handle_config_pairs argv s ≡ s
unfolding handle_config_pairs none_names_ios
handle_config_pairs-others [] s h = refl
handle_config_pairs-others (kv ∷ argv) s h =
    let e = not_and (names_ios kv) (none_names_ios argv) h in
    rw (handle_config_pair-other kv s e.0) (handle_config_pairs-others argv s e.1)

handle_config_pairs-append :
    (argv more : List Bytes) (s : Ios)
    → handle_config_pairs (argv ++ more) s ≡ handle_config_pairs more (handle_config_pairs argv s)
unfolding handle_config_pairs
handle_config_pairs-append [] more s = refl
handle_config_pairs-append (kv ∷ argv) more s =
    handle_config_pairs-append argv more (handle_config_pair kv s)

skip-digit : {s : Bytes} → StartsWithDigit s → skip_delimiters s ≡ s
unfolding skip_delimiters
skip-digit d = rw d.splits (ground (arith, d.digit))

skip-print_int : (n : ℤ) → skip_delimiters (b'=' ∷ print_int n) ≡ print_int n
unfolding skip_delimiters print_int
skip-print_int (pos n) =
    unfold print_nat in skip-digit (StartsWithDigit-print_digits (suc n) n (omega arith))
skip-print_int (negsuc n) = refl

handle_config_pair-ios :
    (n : ℤ) (s : Ios)
    → FitsInt n
    → handle_config_pair (codes "ios=" ++ print_int n) s ≡ record { is_reload = true; ios_val = n }
unfolding handle_config_pair split_key str_eq
handle_config_pair-ios n s h = rw (skip-print_int n, atoi-print_int n h) refl

-- The last argument for the IOS decides, whatever stands before it: where it is "ios=" and an `int`, that
-- number is loaded. Where no argument is for the IOS, none is loaded.
pub handle_ios_reload-last :
    (before after : List Bytes) (n : ℤ)
    → FitsInt n
    → none_names_ios after ≡ true
    → (handle_ios_reload
          (handle_config_pairs (before ++ ((codes "ios=" ++ print_int n) ∷ after)) ios_initial)
        ≡ some n)
      × (handle_ios_reload (handle_config_pairs after ios_initial) ≡ none)
unfolding handle_ios_reload handle_config_pairs
handle_ios_reload-last before after n h e =
    let ios = codes "ios=" ++ print_int n in
    let found =
      handle_config_pairs-append before (ios ∷ after) ios_initial
      ∙ handle_config_pairs-others after _ e
      ∙ handle_config_pair-ios n (handle_config_pairs before ios_initial) h in
    (
      ap handle_ios_reload found,
      ap handle_ios_reload (handle_config_pairs-others after ios_initial e),
    )
