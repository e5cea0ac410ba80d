-- ===== src/Circular.antt =====
-- Circular arrays: `n` slots of an array of `size` slots, from a position on, going round.
use native.Mathlib.Nat.{mod-add-mod, mod-eq_of_lt, mod-eq-sub-mod}
use moonlight_wii.Prelude.{
  ℕ, zero, suc, ◌+◌, ◌-◌, ◌%◌, ◌<◌, ◌≡◌, ◌≢◌, refl, ap, ap₂, ◌∙◌, sym, List, [], ◌∷◌, ◌++◌, arith,
  length, get_or, set,
}
use native.Mathlib.Decide.{dec_lt}

-- The slot after a position, in an array of any size.
add-mod : (h k size : ℕ) → (h + k) % size ≡ (h % size + k) % size
add-mod h k size = rw mod-add-mod

-- Fewer than `size` steps do not come back to the same slot.
small_step-ne : (r k size : ℕ) → r < size → 0 < k → k < size → (r + k) % size ≢ r
small_step-ne r k size hr h0 hk = elim (dec_lt (r + k) size) [
  | yes p ↦ omega (arith, mod-eq_of_lt p)
  | no p ↦ omega (
    arith,
    mod-eq-sub-mod {n = r + k} {m = size} (omega arith),
    mod-eq_of_lt {n = r + k - size} {m = size} (omega arith),
  )
]

step-ne : (h k size : ℕ) → 0 < k → k < size → (h + k) % size ≢ h % size
step-ne h k size h0 hk = rw add-mod (small_step-ne (h % size) k size (omega arith) h0 hk)

module _ {ℓ} {A : Type ℓ} where
  pub get_or-set_self :
      (xs : List A) (i : ℕ) (v d : A) → i < length xs → get_or (set xs i v) i d ≡ v
  get_or-set_self [] i v d h = elim h [ ]
  get_or-set_self (x ∷ xs) zero v d h = refl
  get_or-set_self (x ∷ xs) (suc i) v d h = get_or-set_self xs i v d (omega arith)

  pub get_or-set_ne :
      (xs : List A) (i j : ℕ) (v d : A) → j ≢ i → get_or (set xs i v) j d ≡ get_or xs j d
  get_or-set_ne [] i j v d h = refl
  get_or-set_ne (x ∷ xs) zero zero v d h = absurd (h refl)
  get_or-set_ne (x ∷ xs) zero (suc j) v d h = refl
  get_or-set_ne (x ∷ xs) (suc i) zero v d h = refl
  get_or-set_ne (x ∷ xs) (suc i) (suc j) v d h = get_or-set_ne xs i j v d (λ e. h (ap suc e))

module _ {ℓ} {A : Type ℓ} (d : A) (size : ℕ) where
  abbrev pub window : List A → ℕ → ℕ → List A
  window slots h zero = []
  window slots h (suc n) = get_or slots (h % size) d ∷ window slots (h + 1) n

  pub length-window : (slots : List A) (h n : ℕ) → length (window slots h n) ≡ n
  length-window slots h zero = refl
  length-window slots h (suc n) = ap suc (length-window slots (h + 1) n)

  -- Only the slot of the position counts.
  pub window-mod :
      (slots : List A) (h k n : ℕ) → h % size ≡ k % size → window slots h n ≡ window slots k n
  window-mod slots h k zero e = refl
  window-mod slots h k (suc n) e = ap₂ ◌∷◌ (ap (λ i. get_or slots i d) e) (
      window-mod slots (h + 1) (k + 1) n
        (add-mod h 1 size ∙ ap (λ (i : ℕ). (i + 1) % size) e ∙ sym (add-mod k 1 size)))

  -- Writing just past a window extends it by what was written.
  pub window-set :
      (slots : List A) (x : A) (h n i : ℕ)
      → length slots ≡ size
      → n < size
      → i ≡ (h + n) % size
      → window (set slots i x) h (suc n) ≡ window slots h n ++ x ∷ []
  window-set slots x h zero i hl hn e =
      let e' : h % size ≡ i = rw e (ap (λ k. k % size) (omega arith)) in
      rw e' (ap (λ y. y ∷ []) (get_or-set_self slots i x d (rw e (rw hl (omega arith)))))
  window-set slots x h (suc n) i hl hn e =
      ap₂ ◌∷◌
        (get_or-set_ne slots i (h % size) x d
          (λ e'. step-ne h (suc n) size (omega arith) hn (sym e ∙ sym e')))
        (window-set slots x (h + 1) n i hl (omega arith) (e ∙ ap (λ k. k % size) (omega arith)))
