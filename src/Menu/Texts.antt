-- ===== src/Menu/Texts.antt =====
-- src/wii/menu.c: the characters of a text in its array.
use moonlight_wii.Prelude.{
  ℕ, zero, suc, ◌≤◌, ◌<◌, [], ◌∷◌, ◌++◌, ◌==◌, length, take, set, get_or, arith, Bool-cases, inl,
  inr,
}
use moonlight_wii.Prelude.Text.{Bytes, c_string}

module _ (P : ℕ → Type 0) where
  abbrev pub All : Bytes → Type 0
  All [] = Unit
  All (c ∷ s) = P c × All s

  pub All-get_or : (s : Bytes) (i : ℕ) → i < length s → All s → P (get_or s i 0)
  All-get_or [] i h a = elim h [ ]
  All-get_or (c ∷ s) zero h a = a.0
  All-get_or (c ∷ s) (suc i) h a = All-get_or s i (omega arith) a.1

  pub All-take : (n : ℕ) (s : Bytes) → All s → All (take n s)
  All-take zero s a = tt
  All-take (suc n) [] a = tt
  All-take (suc n) (c ∷ s) a = (a.0, All-take n s a.1)

  -- A character written anywhere, or behind the end.
  pub All-take_write : (n i c : ℕ) (s : Bytes) → P c → All (take n s) → All (take n (set s i c))
  All-take_write zero i c s p a = tt
  All-take_write (suc n) i c [] p a = tt
  All-take_write (suc n) zero c (d ∷ s) p a = (p, a.1)
  All-take_write (suc n) (suc i) c (d ∷ s) p a = (a.0, All-take_write n i c s p a.1)

  pub All-take_next : (n c : ℕ) (s : Bytes) → P c → All (take n s) → All (take (suc n) (set s n c))
  All-take_next n c [] p a = tt
  All-take_next zero c (d ∷ s) p a = (p, tt)
  All-take_next (suc n) c (d ∷ s) p a = (a.0, All-take_next n c s p a.1)

  pub All-c_string :
      (m n : ℕ) (s : Bytes) → n ≤ m → All (take n s) → All (c_string (take m (set s n 0)))
  unfolding c_string
  All-c_string zero n s h a = tt
  All-c_string (suc m) n [] h a = tt
  All-c_string (suc m) zero (c ∷ s) h a = tt
  All-c_string (suc m) (suc n) (c ∷ s) h a = elim (Bool-cases (c == 0)) [
    | inl e ↦ rw e tt
    | inr e ↦ rw e (a.0, All-c_string m n s (omega arith) a.1)
  ]

  pub All-append : (s t : Bytes) → All s → All (take (length s) (s ++ t))
  All-append [] t a = tt
  All-append (c ∷ s) t a = (a.0, All-append s t a.1)

pub length-c_string : (s : Bytes) → length (c_string s) ≤ length s
unfolding c_string
length-c_string [] = omega arith
length-c_string (c ∷ s) = elim (Bool-cases (c == 0)) [
  | inl e ↦ rw e (omega arith)
  | inr e ↦ rw e (omega (arith, length-c_string s))
]
