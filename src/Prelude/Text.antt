-- ===== src/Prelude/Text.antt =====
-- C strings as lists of character codes, without the closing NUL.
use Prim.Native.Char.{code}
use Prim.Native.String.{String}
use moonlight_wii.Prelude.{
  ℕ, ◌≡◌, refl, Bool, true, false, ◌&&◌, ◌||◌, List, [], ◌∷◌, arith, ◌==◌, if◌then◌else◌,
}

abbrev pub Bytes : Type 0
Bytes = List ℕ

-- A literal of the source; every one of them is ASCII.
abbrev pub codes : String → Bytes
codes String.[] = []
codes (String.◌∷◌ c s) = code c ∷ codes s

-- strcmp(s, t) == 0
unfoldable pub str_eq : Bytes → Bytes → Bool
str_eq [] [] = true
str_eq (c ∷ s) (d ∷ t) = c == d && str_eq s t
str_eq _ _ = false

-- Whether the text begins with `s`, and strstr(t, s) != NULL.
unfoldable pub is_prefix : Bytes → Bytes → Bool
is_prefix [] t = true
is_prefix (c ∷ s) [] = false
is_prefix (c ∷ s) (d ∷ t) = c == d && is_prefix s t

unfoldable pub contains : Bytes → Bytes → Bool
unfolding is_prefix
contains [] s = is_prefix s []
contains (c ∷ t) s = is_prefix s (c ∷ t) || contains t s

-- The text that the C library sees in a buffer: up to the first NUL.
unfoldable pub c_string : Bytes → Bytes
c_string [] = []
c_string (c ∷ s) = let rest = c_string s in if c == 0 then [] else c ∷ rest

pub str_eq_refl : (s : Bytes) → str_eq s s ≡ true
unfolding str_eq
str_eq_refl [] = refl
str_eq_refl (c ∷ s) = ground (arith, str_eq_refl s)

pub str_eq→≡ : (s t : Bytes) → str_eq s t ≡ true → s ≡ t
unfolding str_eq
str_eq→≡ [] [] h = refl
str_eq→≡ [] (d ∷ t) h = cc
str_eq→≡ (c ∷ s) [] h = cc
str_eq→≡ (c ∷ s) (d ∷ t) h = ground (arith, str_eq→≡ s t)
