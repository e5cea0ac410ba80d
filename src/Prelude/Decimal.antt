-- ===== src/Prelude/Decimal.antt =====
-- Decimal numbers: what "%d" prints, and what `atoi` and `strtol(s, NULL, 10)` read.
use moonlight_wii.Prelude.{
  ℕ, zero, suc, ◌+◌, ◌-◌, ◌*◌, ◌/◌, ◌%◌, ◌^◌, ◌≤◌, ◌<◌, ◌≡◌, refl, ◌∙◌, ap, sym, Bool, ◌&&◌, ◌||◌,
  [], ◌∷◌, ◌++◌, arith, ltb, leb, ◌==◌, if◌then◌else◌, min, append_assoc, append-nil, Bool-cases,
  inl, inr, ltb→lt,
}
use moonlight_wii.Prelude.Int.{ℤ, pos, negsuc}
use moonlight_wii.Prelude.Text.{Bytes}

-- The digits of `n`, most significant first; `n + 1` rounds are enough.
unfoldable pub print_digits : ℕ → ℕ → Bytes
print_digits zero n = []
print_digits (suc fuel) n =
    let before = print_digits fuel (n / 10) in
    if ltb n 10 then (48 + n) ∷ [] else before ++ (48 + n % 10) ∷ []

unfoldable pub print_nat : ℕ → Bytes
unfolding print_digits
print_nat n = print_digits (suc n) n

unfoldable pub print_int : ℤ → Bytes
unfolding print_nat
print_int (pos n) = print_nat n
print_int (negsuc n) = b'-' ∷ print_nat (suc n)

abbrev pub is_digit : ℕ → Bool
is_digit c = leb 48 c && leb c 57

-- isspace of the "C" locale
abbrev pub is_space : ℕ → Bool
is_space c = c == 32 || (leb 9 c && leb c 13)

-- The value of the leading digits, on top of what was read before.
unfoldable pub read_digits : ℕ → Bytes → ℕ
read_digits acc [] = acc
read_digits acc (c ∷ cs) =
    let rest = read_digits (acc * 10 + (c - 48)) cs in if is_digit c then rest else acc

unfoldable pub skip_spaces : Bytes → Bytes
skip_spaces [] = []
skip_spaces (c ∷ cs) = if is_space c then skip_spaces cs else c ∷ cs

-- A `long` has 32 bits here, and `strtol` stops at its bounds.
abbrev pub int_max : ℕ
int_max = 2 ^ 31 - 1

abbrev saturate_neg : ℕ → ℤ
saturate_neg zero = pos 0
saturate_neg (suc n) = negsuc (min n int_max)

read_signed : Bytes → ℤ
unfolding read_digits
read_signed [] = pos 0
read_signed (c ∷ cs) =
    if c == b'-'
    then saturate_neg (read_digits 0 cs)
    else if c == b'+'
    then pos (min (read_digits 0 cs) int_max)
    else pos (min (read_digits 0 (c ∷ cs)) int_max)

-- atoi(s); newlib's is `(int) strtol(s, NULL, 10)`.
unfoldable pub atoi : Bytes → ℤ
unfolding read_signed skip_spaces
atoi s = read_signed (skip_spaces s)

shift : (acc d : ℕ) → acc * 10 + (48 + d - 48) ≡ acc * 10 + d
shift acc d = omega arith

read_digits-cons :
    (acc d : ℕ) (rest : Bytes)
    → d < 10
    → read_digits acc ((48 + d) ∷ rest) ≡ read_digits (acc * 10 + d) rest
unfolding read_digits
read_digits-cons acc d rest h = ground (arith, ap (λ (k : ℕ). read_digits k rest) (shift acc d))

-- Reading goes on behind the digits of a number as if the number had been read.
read_digits-print_digits :
    (fuel n : ℕ) (rest : Bytes)
    → n < fuel
    → read_digits 0 (print_digits fuel n ++ rest) ≡ read_digits n rest
unfolding print_digits
read_digits-print_digits zero n rest h = elim h [ ]
read_digits-print_digits (suc fuel) n rest h = elim (Bool-cases (ltb n 10)) [
  | inl small ↦
      rw small
        (read_digits-cons 0 n rest (ltb→lt n 10 small) ∙ ap (λ k. read_digits k rest) (omega arith))
  | inr big ↦
      rw
        (
          big,
          append_assoc,
          read_digits-print_digits fuel (n / 10) ((48 + n % 10) ∷ rest) (ground arith),
          read_digits-cons (n / 10) (n % 10) rest (omega arith),
        )
        (ap (λ k. read_digits k rest) (omega arith))
]

-- A printed number begins with a digit.
pub record StartsWithDigit (s : Bytes) : Type 0 where
  pub first : ℕ
  pub others : Bytes
  pub splits : s ≡ first ∷ others
  pub digit : (48 ≤ first) × (first ≤ 57)

StartsWithDigit-append : {s : Bytes} (t : Bytes) → StartsWithDigit s → StartsWithDigit (s ++ t)
StartsWithDigit-append t d = record {
  first = d.first;
  others = d.others ++ t;
  splits = ap (λ s. s ++ t) d.splits;
  digit = d.digit;
}

pub StartsWithDigit-print_digits : (fuel n : ℕ) → n < fuel → StartsWithDigit (print_digits fuel n)
unfolding print_digits
StartsWithDigit-print_digits zero n h = elim h [ ]
StartsWithDigit-print_digits (suc fuel) n h = elim (Bool-cases (ltb n 10)) [
  | inl small ↦ rw small (record {
    first = 48 + n;
    others = [];
    splits = refl;
    digit = omega (arith, ltb→lt n 10 small);
  })
  | inr big ↦
      rw big (StartsWithDigit-append _ (StartsWithDigit-print_digits fuel (n / 10) (ground arith)))
]

read_digits-print_nat : (n : ℕ) → read_digits 0 (print_nat n) ≡ n
unfolding print_nat read_digits
read_digits-print_nat n =
    ap (read_digits 0) (sym (append-nil (print_digits (suc n) n)))
    ∙ read_digits-print_digits (suc n) n [] (omega arith)

-- Text that begins with a digit is read as a number with no sign.
atoi-digits :
    (c : ℕ) (s : Bytes)
    → (48 ≤ c) × (c ≤ 57)
    → atoi (c ∷ s) ≡ pos (min (read_digits 0 (c ∷ s)) int_max)
unfolding atoi
atoi-digits c s h = ground arith

-- `atoi` reads back what "%d" printed, for every `int`.
pub atoi-print_int_pos : (n : ℕ) → n ≤ int_max → atoi (print_int (pos n)) ≡ pos n
unfolding print_int
atoi-print_int_pos n h =
    let d = StartsWithDigit-print_digits (suc n) n (omega arith) in
    (unfold print_nat in ap atoi d.splits)
    ∙ atoi-digits d.first d.others d.digit
    ∙ ap (λ s. pos (min (read_digits 0 s) int_max)) (unfold print_nat in sym d.splits)
    ∙ ap (λ k. pos (min k int_max)) (read_digits-print_nat n)
    ∙ ap pos (omega arith)

pub atoi-print_int_neg : (n : ℕ) → n ≤ int_max → atoi (print_int (negsuc n)) ≡ negsuc n
unfolding print_int atoi
atoi-print_int_neg n h = rw (read_digits-print_nat (suc n)) (ap negsuc (omega arith))
