-- ===== src/Config/Numbers.antt =====
-- src/config.c: a number that "%d" prints can stand in a line of the file.
use moonlight_wii.Prelude.{
  ℕ, zero, suc, ◌+◌, ◌*◌, ◌/◌, ◌%◌, ◌≤◌, ◌<◌, ◌≡◌, refl, true, [], ◌∷◌, arith, ltb, length,
  length-append, Bool-cases, inl, inr, lt→ltb,
}
use moonlight_wii.Prelude.Int.{ℤ, pos, negsuc}
use moonlight_wii.Prelude.Text.{Bytes}
use moonlight_wii.Prelude.Decimal.{
  print_digits, print_nat, print_int, StartsWithDigit, StartsWithDigit-print_digits, int_max, atoi,
  atoi-print_int_pos, atoi-print_int_neg,
}
use moonlight_wii.Config.Lines.{IsPlain, has_no_newline, has_no_newline-append, starts_plain}

-- The values of an `int`.
unfoldable pub FitsInt : ℤ → Type 0
FitsInt (pos n) = n ≤ int_max
FitsInt (negsuc n) = n ≤ int_max

has_no_newline-print_digits : (fuel n : ℕ) → has_no_newline (print_digits fuel n) ≡ true
unfolding print_digits has_no_newline
has_no_newline-print_digits zero n = refl
has_no_newline-print_digits (suc fuel) n = elim (Bool-cases (ltb n 10)) [
  | inl small ↦ rw small (ground arith)
  | inr big ↦ rw big (
      has_no_newline-append (print_digits fuel (n / 10)) ((48 + n % 10) ∷ [])
        (has_no_newline-print_digits fuel (n / 10)) (ground arith))
]

ten_times : ℕ → ℕ
ten_times zero = 10
ten_times (suc k) = 10 * ten_times k

length-print_digits : (k fuel n : ℕ) → n < ten_times k → length (print_digits fuel n) ≤ suc k
unfolding print_digits ten_times
length-print_digits k zero n h = omega arith
length-print_digits zero (suc fuel) n h = rw (lt→ltb n 10 h) (omega arith)
length-print_digits (suc k) (suc fuel) n h = elim (Bool-cases (ltb n 10)) [
  | inl small ↦ rw small (omega arith)
  | inr big ↦ rw big (
      omega (
        arith,
        length-append (print_digits fuel (n / 10)) ((48 + n % 10) ∷ []),
        length-print_digits k fuel (n / 10) (omega arith),
      ))
]

starts_plain-digit : {s : Bytes} → StartsWithDigit s → starts_plain s ≡ true
starts_plain-digit d = rw d.splits (ground (arith, d.digit))

short_number : (n : ℕ) → n ≤ suc int_max → length (print_nat n) ≤ 10
unfolding print_nat ten_times
short_number n h = length-print_digits 9 (suc n) n (omega arith)

-- An `int` has at most ten digits and a sign.
pub length-print_int : (z : ℤ) → FitsInt z → length (print_int z) ≤ 11
unfolding print_int FitsInt
length-print_int (pos n) h = omega (arith, short_number n (omega arith))
length-print_int (negsuc n) h = omega (arith, short_number (suc n) (omega arith))

pub IsPlain-print_int : (z : ℤ) → FitsInt z → IsPlain (print_int z)
unfolding print_int FitsInt has_no_newline
IsPlain-print_int (pos n) h = record {
  no_newline = unfold print_nat in has_no_newline-print_digits (suc n) n;
  short = omega (arith, short_number n (omega arith));
  starts =
      unfold print_nat in starts_plain-digit (StartsWithDigit-print_digits (suc n) n (omega arith));
}
IsPlain-print_int (negsuc n) h = record {
  no_newline = unfold print_nat in has_no_newline-print_digits (suc (suc n)) (suc n);
  short = omega (arith, short_number (suc n) (omega arith));
  starts = refl;
}

pub atoi-print_int : (z : ℤ) → FitsInt z → atoi (print_int z) ≡ z
unfolding FitsInt
atoi-print_int (pos n) h = atoi-print_int_pos n h
atoi-print_int (negsuc n) h = atoi-print_int_neg n h
