-- ===== src/Menu/Laws.antt =====
-- src/wii/menu.c: what `menu_select` can return.
use moonlight_wii.Prelude.{
  ℕ, zero, suc, ◌+◌, ◌<◌, min, ◌≡◌, refl, ap, ◌∙◌, true, false, Option, none, some, List, [], ◌∷◌,
  ◌++◌, ◌==◌, replicate, arith, Bool-cases, inl, inr,
}
use moonlight_wii.Prelude.Int.{ℤ, pos, negsuc}
use moonlight_wii.Menu.{Round, stopped, main_menu, pressed, clamp, select_loop, menu_select}

-- What the caller may index an array of `count` elements with, or the one other result.
unfoldable pub IsChoice : ℕ → Option ℤ → Type 0
IsChoice count none = Unit
IsChoice count (some (pos r)) = r < count
IsChoice count (some (negsuc n)) = n ≡ 0

clamp_lt : (count : ℕ) (sel : ℤ) → 0 < count → clamp count sel < count
unfolding clamp
clamp_lt count (pos n) h = ground arith
clamp_lt count (negsuc n) h = h

select_loop-IsChoice :
    (count : ℕ) (rounds : List Round) (sel : ℤ)
    → 0 < count
    → IsChoice count (select_loop count rounds sel)
unfolding select_loop IsChoice
select_loop-IsChoice count [] sel h = tt
select_loop-IsChoice count (stopped ∷ rounds) sel h = refl
select_loop-IsChoice count (main_menu ∷ rounds) sel h = refl
select_loop-IsChoice count (pressed btns ∷ rounds) sel h = elim (Bool-cases btns.a) [
  | inl a ↦ rw (select_loop, a) (clamp_lt count sel h)
  | inr a ↦ elim (Bool-cases btns.b) [
    | inl b ↦ rw (select_loop, a, b) refl
    | inr b ↦ rw (select_loop, a, b) (select_loop-IsChoice count rounds _ h)
  ]
]

suc_nonzero : (n : ℕ) → (suc n == 0) ≡ false
suc_nonzero n = ground arith

-- Whatever is pressed, `menu_select` returns the index of one of its options or -1.
pub menu_select-IsChoice :
    (count : ℕ) (sel : ℤ) (rounds : List Round) → IsChoice count (menu_select count sel rounds)
unfolding menu_select IsChoice
menu_select-IsChoice zero sel rounds = refl
menu_select-IsChoice (suc n) sel rounds =
    rw (menu_select, suc_nonzero n) (select_loop-IsChoice (suc n) rounds sel (omega arith))

abbrev pub press_down : Round
press_down =
    pressed (record { a = false; b = false; up = false; down = true; left = false; right = false })

abbrev pub press_a : Round
press_a =
    pressed (record { a = true; b = false; up = false; down = false; left = false; right = false })

clamp-min : (count n : ℕ) → clamp (suc count) (pos n) ≡ min n count
unfolding clamp
clamp-min count n = ground arith

select_loop-down :
    (count k n : ℕ) (rounds : List Round)
    → select_loop (suc count) (replicate k press_down ++ press_a ∷ rounds) (pos n)
      ≡ some (pos (min (n + k) count))
unfolding select_loop
select_loop-down count zero n rounds = ap (λ r. some (pos r)) (clamp-min count n ∙ omega arith)
select_loop-down count (suc k) n rounds =
    ap (λ m. select_loop (suc count) (replicate k press_down ++ press_a ∷ rounds) (pos (suc m)))
      (clamp-min count n)
    ∙ select_loop-down count k (suc (min n count)) rounds
    ∙ ap (λ m. some (pos m)) (omega arith)

-- The button down, pressed `k` times, moves the selection by as many options, and it stays at the last
-- one; A returns it.
pub menu_select-down :
    (count k n : ℕ) (rounds : List Round)
    → menu_select (suc count) (pos n) (replicate k press_down ++ press_a ∷ rounds)
      ≡ some (pos (min (n + k) count))
unfolding menu_select
menu_select-down count k n rounds =
    rw (menu_select, suc_nonzero count) (select_loop-down count k n rounds)
