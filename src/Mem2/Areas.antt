-- ===== src/Mem2/Areas.antt =====
-- What the areas of the arena promise.
use moonlight_wii.Prelude.{
  ℕ, zero, suc, ◌+◌, ◌-◌, ◌%◌, ◌^◌, ◌≤◌, ◌<◌, ◌≡◌, ◌≢◌, refl, ap, sym, ◌∙◌, Bool, true, false, not,
  ◌&&◌, some, List, [], ◌∷◌, arith, ltb, leb, ◌==◌, length, get_or, set, length-set, ◌⊎◌, inr,
}
use moonlight_wii.Circular.{get_or-set_self}
use moonlight_wii.Mem2.{
  Area, no_area, Mem2, round_down32, has_lower, remove_mem2_area, carve, resize, add_mem2_area,
}

-- Every area was carved off an arena that reached at least as far as now.
abbrev pub IsStacked : ℕ → List Area → Type 0
IsStacked hi [] = Unit
IsStacked hi (a ∷ rest) = ((a.old_arena2hi ≡ 0) ⊎ (hi ≤ a.old_arena2hi)) × IsStacked hi rest

not_lower :
    (a : Area) (hi : ℕ) (b : Bool)
    → (a.old_arena2hi ≡ 0) ⊎ (hi ≤ a.old_arena2hi)
    → (b && not (a.old_arena2hi == 0) && ltb a.old_arena2hi hi) ≡ false
not_lower a hi b h = ground arith

has_lower-IsStacked :
    (hi i area : ℕ) (areas : List Area) → IsStacked hi areas → has_lower i area hi areas ≡ false
unfolding has_lower
has_lower-IsStacked hi i area [] s = refl
has_lower-IsStacked hi i area (a ∷ rest) s =
    rw (not_lower a hi (not (i == area)) s.0) (has_lower-IsStacked hi (i + 1) area rest s.1)

IsStacked-set :
    (hi k : ℕ) (a : Area) (areas : List Area)
    → a.old_arena2hi ≡ hi
    → IsStacked hi areas
    → IsStacked hi (set areas k a)
IsStacked-set hi k a [] e s = tt
IsStacked-set hi zero a (b ∷ rest) e s = (inr (omega arith), s.1)
IsStacked-set hi (suc k) a (b ∷ rest) e s = (s.0, IsStacked-set hi k a rest e s.1)

set-set_back :
    (areas : List Area) (k : ℕ) (a b : Area)
    → get_or areas k b ≡ b
    → set (set areas k a) k b ≡ areas
set-set_back [] k a b e = refl
set-set_back (x ∷ rest) zero a b e = ap (λ y. y ∷ rest) (sym e)
set-set_back (x ∷ rest) (suc k) a b e = ap (λ l. x ∷ l) (set-set_back rest k a b e)

removes :
    (index : ℕ) (m : Mem2) (a : Area)
    → get_or m.areas index no_area ≡ a
    → leb (length m.areas) index ≡ false
    → (a.size == 0) ≡ false
    → has_lower 0 index a.old_arena2hi m.areas ≡ false
    → remove_mem2_area index m
      ≡ (record m { arena2_hi = a.old_arena2hi; areas = set m.areas index no_area }, true)
unfolding remove_mem2_area
removes index m a own known used alone = rw own (rw known (rw used (rw alone refl)))

module _ (size index : ℕ) (m : Mem2) where
  -- An area that can be carved: the manager is initialised, the area is one of its own and free.
  pub record IsFree : Type 0 where
    pub ready : m.inited ≡ true
    pub known : index < length m.areas
    pub free : get_or m.areas index no_area ≡ no_area
    pub some_size : size ≢ 0

  carved : Area
  carved =
      let ptr = round_down32 ((m.arena2_hi + 2 ^ 32 - size) % 2 ^ 32) in
      record { heap = some (ptr, size); heap_ptr = ptr; size = size; old_arena2hi = m.arena2_hi }

  carve_lem :
      (carve size index m).1 ≡ true
      → (carve size index m).0
        ≡ record m { arena2_hi = carved.heap_ptr; areas = set m.areas index carved }
  unfolding carve carved
  carve_lem h = ground arith

  add_mem2_area_lem : IsFree → add_mem2_area size index m ≡ carve size index m
  unfolding add_mem2_area resize
  add_mem2_area_lem f = ground (arith, ap (λ a. a.size) f.free)

  made_lem :
      IsFree
      → (add_mem2_area size index m).1 ≡ true
      → (add_mem2_area size index m).0
        ≡ record m { arena2_hi = carved.heap_ptr; areas = set m.areas index carved }
  made_lem f ok = ap (λ r. r.0) (add_mem2_area_lem f) ∙ carve_lem (rw (add_mem2_area_lem f) at ok)

  own_lem : IsFree → get_or (set m.areas index carved) index no_area ≡ carved
  own_lem f = get_or-set_self m.areas index carved no_area f.known

  carve_in : (carve size index m).1 ≡ true → m.arena2_lo ≤ carved.heap_ptr
  unfolding carve carved
  carve_in h = ground arith

  carved_bounds :
      size + 31 ≤ m.arena2_hi
      → m.arena2_hi < 2 ^ 32
      → (carved.heap_ptr % 32 ≡ 0) × (carved.heap_ptr + size ≤ m.arena2_hi)
  unfolding carved round_down32
  carved_bounds h b = omega arith

  -- A carved area is aligned, lies within the arena as it was, and ends it; if its size and 31 bytes more are
  -- not more than the address at which the arena ends.
  pub add_mem2_area_bounds :
      IsFree
      → size + 31 ≤ m.arena2_hi
      → m.arena2_hi < 2 ^ 32
      → (add_mem2_area size index m).1 ≡ true
      → let after = (add_mem2_area size index m).0 in
        let a = get_or after.areas index no_area in
        (a.heap_ptr % 32 ≡ 0)
        × (m.arena2_lo ≤ a.heap_ptr)
        × (a.heap_ptr + a.size ≤ m.arena2_hi)
        × (a.size ≡ size)
        × (after.arena2_hi ≡ a.heap_ptr)
  unfolding carved
  add_mem2_area_bounds f h b ok =
      let made = made_lem f ok in
      let own : get_or (add_mem2_area size index m).0.areas index no_area ≡ carved =
        ap (λ n. get_or n.areas index no_area) made ∙ own_lem f in
      let (aligned, fits) = carved_bounds h b in
      rw own
        (aligned, carve_in (rw (add_mem2_area_lem f) at ok), fits, refl, ap (λ n. n.arena2_hi) made)

  -- Removing an area that was just added gives back the arena, and every other area, as they were.
  pub remove_mem2_area-add_mem2_area :
      IsFree
      → IsStacked m.arena2_hi m.areas
      → (add_mem2_area size index m).1 ≡ true
      → remove_mem2_area index (add_mem2_area size index m).0 ≡ (m, true)
  unfolding carved
  remove_mem2_area-add_mem2_area f st ok =
      let long : leb (length (set m.areas index carved)) index ≡ false =
        ground (arith, length-set m.areas index carved) in
      let used : (size == 0) ≡ false = ground arith in
      let alone : has_lower 0 index m.arena2_hi (set m.areas index carved) ≡ false =
        has_lower-IsStacked m.arena2_hi 0 index (set m.areas index carved)
          (IsStacked-set m.arena2_hi index carved m.areas refl st) in
      ap (remove_mem2_area index) (made_lem f ok)
      ∙ removes index (record m { arena2_hi = carved.heap_ptr; areas = set m.areas index carved })
          carved (own_lem f) long used alone
      ∙ ap (λ l. (record m { areas = l }, true)) (set-set_back m.areas index carved no_area f.free)
