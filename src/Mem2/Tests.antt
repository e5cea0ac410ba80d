-- ===== src/Mem2/Tests.antt =====
-- The arena of a console, with the one area for the textures.
use moonlight_wii.Prelude.{◌≡◌, refl, true, false, [], ◌∷◌, arith, inl}
use moonlight_wii.Mem2.{no_area, Mem2, add_mem2_area, remove_mem2_area}
use moonlight_wii.Mem2.Areas.{IsFree, remove_mem2_area-add_mem2_area}

abbrev console : Mem2
console = record {
  inited = true;
  areas = no_area ∷ [];
  arena2_lo = 0x90000800;
  arena2_hi = 0x93400000;
}

console-IsFree : IsFree 3000001 0 console
console-IsFree = record { ready = refl; known = omega arith; free = refl; some_size = omega arith }

added_textures : (add_mem2_area 3000001 0 console).1 ≡ true
unfolding add_mem2_area
added_textures = refl

too_large : (add_mem2_area 0x4000000 0 console).1 ≡ false
unfolding add_mem2_area
too_large = refl

remove_mem2_area-add_mem2_area_example :
    remove_mem2_area 0 (add_mem2_area 3000001 0 console).0 ≡ (console, true)
remove_mem2_area-add_mem2_area_example =
    remove_mem2_area-add_mem2_area 3000001 0 console console-IsFree (inl refl, tt) added_textures
