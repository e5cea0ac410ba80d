-- ===== src/Mem2.antt =====
-- src/wii/mem2_manager.c: areas carved off the upper end of the MEM2 arena. The heaps inside the areas
-- are libogc's: an area keeps where its heap was made. An address is a number below 2^32, NULL is 0.
pub mod Areas
pub mod Heaps
mod Tests
use moonlight_wii.Prelude.{
  ℕ, zero, suc, ◌+◌, ◌-◌, ◌*◌, ◌/◌, ◌%◌, ◌^◌, Bool, true, false, not, ◌&&◌, ◌||◌, Option, none,
  some, List, [], ◌∷◌, map, if◌then◌else◌, ltb, leb, ◌==◌, length, get_or, set,
}

-- st_mem2_area; `heap` is what `__lwp_heap_init` was given last: the start and the size.
pub record Area : Type 0 where
  pub heap : Option (ℕ × ℕ)
  pub heap_ptr : ℕ
  pub size : ℕ
  pub old_arena2hi : ℕ

abbrev pub no_area : Area
no_area = record { heap = none; heap_ptr = 0; size = 0; old_arena2hi = 0 }

-- `_inited`, the areas, MEM2_MAX of them, and the ends of the arena that libogc keeps.
pub record Mem2 : Type 0 where
  pub inited : Bool
  pub areas : List Area
  pub arena2_lo : ℕ
  pub arena2_hi : ℕ

-- ((u32)(v) - 0x1f) & ~0x1f
unfoldable pub round_down32 : ℕ → ℕ
round_down32 v = (v + 2 ^ 32 - 31) % 2 ^ 32 / 32 * 32

unfoldable pub cleared : Area → Area
cleared a = record a { heap_ptr = 0; size = 0; old_arena2hi = 0 }

unfoldable pub init_mem2_areas : Mem2 → Mem2
unfolding cleared
init_mem2_areas m = record m { areas = map cleared m.areas; inited = true }

-- The loop of `RemoveMem2Area` from the i-th area on: whether one was carved after the given one.
unfoldable pub has_lower : ℕ → ℕ → ℕ → List Area → Bool
has_lower i area old [] = false
has_lower i area old (a ∷ rest) =
    not (i == area) && not (a.old_arena2hi == 0) && ltb a.old_arena2hi old
    || has_lower (i + 1) area old rest

unfoldable pub remove_mem2_area : ℕ → Mem2 → Mem2 × Bool
unfolding has_lower
remove_mem2_area area m =
    let a = get_or m.areas area no_area in
    if leb (length m.areas) area || a.size == 0 || has_lower 0 area a.old_arena2hi m.areas
    then (m, false)
    else (record m { arena2_hi = a.old_arena2hi; areas = set m.areas area no_area }, true)

-- What `AddMem2Area` does when the area is free.
unfoldable pub carve : ℕ → ℕ → Mem2 → Mem2 × Bool
unfolding round_down32
carve size index m =
    let a = get_or m.areas index no_area in
    let ptr = round_down32 ((m.arena2_hi + 2 ^ 32 - size) % 2 ^ 32) in
    if ltb ptr m.arena2_lo
    then (
      record m { areas = set m.areas index (record a { heap_ptr = 0; old_arena2hi = 0 }) },
      false,
    )
    else (
      record m {
        arena2_hi = ptr;
        areas = set m.areas index (record {
          heap = some (ptr, size);
          heap_ptr = ptr;
          size = size;
          old_arena2hi = m.arena2_hi;
        });
      },
      true,
    )

unfoldable pub carve_if : ℕ → ℕ → Mem2 × Bool → Mem2 × Bool
unfolding carve
carve_if size index (m, removed) = if removed then carve size index m else (m, false)

-- The part behind the tests of the arguments.
unfoldable pub resize : ℕ → ℕ → Mem2 → Mem2 × Bool
unfolding remove_mem2_area carve_if
resize size index m =
    let a = get_or m.areas index no_area in
    if a.size == size
    then (m, true)
    else if ltb 0 a.size
    then carve_if size index (remove_mem2_area index m)
    else carve size index m

unfoldable pub add_mem2_area : ℕ → ℕ → Mem2 → Mem2 × Bool
unfolding init_mem2_areas resize
add_mem2_area size index m =
    let m' = if m.inited then m else init_mem2_areas m in
    if leb (length m'.areas) index || size == 0 then (m', false) else resize size index m'
