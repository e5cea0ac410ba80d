-- ===== src/Identity/Folders.antt =====
-- `mkdirtree` makes the folders of a path, the outer ones first, and its loop ends.
use moonlight_wii.Prelude.{
  ℕ, zero, suc, ◌-◌, ◌≤◌, ◌≡◌, refl, ap, sym, ◌∙◌, Bool, true, false, Option, some, List, [], ◌∷◌,
  ◌++◌, if◌then◌else◌, ◌==◌, arith, length, take, append_assoc, append-nil, length-take, Bool-cases,
  inl, inr,
}
use moonlight_wii.Prelude.Text.{Bytes}
use moonlight_wii.Identity.{
  Platform, Made, made, exists_already, refused, element, with_call, mkdirtree_from, mkdirtree,
}

-- The reference: every front part of a path that ends before a '/' or at the end, `done` being before it.
abbrev pub fronts : Bytes → Bytes → List Bytes
fronts done [] = done ∷ []
fronts done (c ∷ s) =
    let rest = fronts (done ++ c ∷ []) s in if c == b'/' then done ∷ rest else rest

abbrev pub folders : Bytes → List Bytes
folders [] = []
folders (c ∷ s) = fronts (c ∷ []) s

module _ (platform : Platform) where
  open platform use {path_max, mkdir}

  -- One call after the other, up to the first that fails for another reason than that the folder is there.
  abbrev pub attempt : List Bytes → List Bytes × Bool
  attempt [] = ([], true)
  attempt (p ∷ ps) = elim (mkdir p) [
    | refused ↦ (p ∷ [], false)
    | _ ↦ (p ∷ (attempt ps).0, (attempt ps).1)
  ]

  length-element : (s : Bytes) → length (element platform s).1 ≤ length s
  unfolding element
  length-element [] = omega arith
  length-element (c ∷ s) = ground (arith, length-element s)

  -- The folders from the next separator on.
  abbrev later : Bytes → Bytes → List Bytes
  later done [] = []
  later done (c ∷ s) = fronts (done ++ c ∷ []) s

  fronts-element :
      (done s : Bytes)
      → fronts done s
        ≡ (done ++ (element platform s).0)
          ∷ later (done ++ (element platform s).0) (element platform s).1
  unfolding element
  fronts-element done [] = ap (λ p. p ∷ []) (sym (append-nil done))
  fronts-element done (c ∷ s) = elim (Bool-cases (c == b'/')) [
    | inl e ↦ rw e (rw (append-nil done) refl)
    | inr e ↦ rw e (
        rw (append_assoc done (c ∷ []) (element platform s).0) at
          (fronts-element (done ++ c ∷ []) s))
  ]

  answered :
      (m : Made) (path : Bytes) (l : Option (List Bytes × Bool)) (ps : List Bytes)
      → l ≡ some (attempt ps)
      → (elim m [ refused ↦ some (path ∷ [], false) | _ ↦ with_call platform path l ])
        ≡ some
            (elim m [ refused ↦ (path ∷ [], false) | _ ↦ (path ∷ (attempt ps).0, (attempt ps).1) ])
  answered refused path l ps e = refl
  answered made path l ps e = rw e refl
  answered exists_already path l ps e = rw e refl

  mkdirtree_from_lem :
      (fuel : ℕ) (done s : Bytes)
      → length s ≤ fuel
      → mkdirtree_from platform fuel done s ≡ some (attempt (later done s))
  unfolding mkdirtree_from
  mkdirtree_from_lem fuel done [] h = refl
  mkdirtree_from_lem zero done (c ∷ s) h = absurd (omega arith)
  mkdirtree_from_lem (suc fuel) done (c ∷ s) h =
      let path = done ++ c ∷ (element platform s).0 in
      let rest = (element platform s).1 in
      let here : fronts (done ++ c ∷ []) s ≡ path ∷ later path rest =
        rw (append_assoc done (c ∷ []) (element platform s).0) at
          (fronts-element (done ++ c ∷ []) s) in
      answered (mkdir path) path (mkdirtree_from platform fuel path rest) (later path rest)
        (mkdirtree_from_lem fuel path rest (omega (arith, length-element s)))
      ∙ ap (λ l. some (attempt l)) (sym here)

  from_start : (s : Bytes) → later [] s ≡ folders s
  from_start [] = refl
  from_start (c ∷ s) = refl

  -- `mkdirtree` ends, and makes the folders of the path, of which it takes PATH_MAX - 1 characters: every
  -- part of it that ends before a '/' (but an empty one) or at the end, in this order, up to the first that
  -- cannot be made and is not there; it succeeds exactly if there is none.
  pub mkdirtree-folders :
      (directory : Bytes)
      → mkdirtree platform directory ≡ some (attempt (folders (take (path_max - 1) directory)))
  unfolding mkdirtree
  mkdirtree-folders directory =
      mkdirtree_from_lem (path_max - 1) [] (take (path_max - 1) directory)
        (omega (arith, length-take (path_max - 1) directory))
      ∙ ap (λ l. some (attempt l)) (from_start (take (path_max - 1) directory))
