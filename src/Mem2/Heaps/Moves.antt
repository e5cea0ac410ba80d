-- ===== src/Mem2/Heaps/Moves.antt =====
-- What `mem2_realloc` of src/wii/mem2_manager.c makes of a block and of the others.
use moonlight_wii.Prelude.{
  ℕ, ◌+◌, ◌-◌, ◌*◌, ◌%◌, ◌^◌, ◌<◌, ◌≤◌, ◌≡◌, ◌≢◌, ◌⊎◌, refl, ap, sym, ◌∙◌, true, false, ◌&&◌, min,
  arith, if◌then◌else◌, ltb, leb, ◌==◌, Bool-cases, inl, inr,
}
use moonlight_wii.Mem2.Heaps.{
  LwpHeap, Heaps, set_heap, copy_at, block_size, is_unusable, mem2_memalign, mem2_malloc, mem2_free,
  mem2_realloc, mem2_calloc,
}

eq_self : (a : ℕ) → (a == a) ≡ true
eq_self a = ground arith

ne_test : (a b : ℕ) → a ≢ b → (a == b) ≡ false
ne_test a b h = ground arith

copy_at_inside :
    (q p n i : ℕ) (memory : ℕ → ℕ) → i < n → copy_at q p n memory (q + i) ≡ memory (p + i)
copy_at_inside q p n i memory h =
    let place : p + (q + i - q) ≡ p + i = omega arith in ground (arith, ap memory place)

copy_at_outside :
    (q p n a : ℕ) (memory : ℕ → ℕ)
    → (leb q a && ltb a (q + n)) ≡ false
    → copy_at q p n memory a ≡ memory a
copy_at_outside q p n a memory h = rw h refl

inside_range : (q n a : ℕ) → (leb q a && ltb a (q + n)) ≡ true → (a - q < n) × (a ≡ q + (a - q))
inside_range q n a h = ground arith

module _ (lwp : LwpHeap) (p newsize area : ℕ) (s : Heaps lwp) where
  open lwp use {allocate, owner}

  -- A new block: what the old one had of its first bytes is in it, no byte of a block was written, the old
  -- block is free, and the others are where they were.
  pub record Moved (out : Heaps lwp × ℕ) : Type 0 where
    pub moved :
        (i : ℕ)
        → i < newsize
        → owner (s.heaps area) (p + i) ≡ p
        → out.0.memory (out.1 + i) ≡ s.memory (p + i)
    pub kept : (a : ℕ) → owner (s.heaps area) a ≢ 0 → out.0.memory a ≡ s.memory a
    pub freed : (a : ℕ) → owner (s.heaps area) a ≡ p → owner (out.0.heaps area) a ≡ 0
    pub others :
        (a : ℕ)
        → owner (s.heaps area) a ≢ 0
        → owner (s.heaps area) a ≢ p
        → owner (out.0.heaps area) a ≡ owner (s.heaps area) a
    pub given : (i : ℕ) → i < newsize → owner (out.0.heaps area) (out.1 + i) ≡ out.1

  -- NULL, and nothing has changed.
  pub record Refused (out : Heaps lwp × ℕ) : Type 0 where
    pub null : out.1 ≡ 0
    pub same_memory : (a : ℕ) → out.0.memory a ≡ s.memory a
    pub same_owner : (a : ℕ) → owner (out.0.heaps area) a ≡ owner (s.heaps area) a

  abbrev got : lwp.Heap × ℕ
  got = allocate (s.heaps area) newsize

  abbrev copied : Heaps lwp
  copied = record (set_heap lwp area got.0 s) {
    memory = copy_at got.1 p (min (block_size lwp (s.heaps area) p) newsize) s.memory;
  }

  abbrev outcome : Heaps lwp × ℕ
  outcome =
      if got.1 == 0 then (set_heap lwp area got.0 s, 0) else (mem2_free lwp p area copied, got.1)

  module _ (some_block : p ≢ 0) (some_size : 0 < newsize) (usable : is_unusable lwp area s ≡ false)
      (is_kept : lwp.IsKept (s.heaps area)) where
    malloc_outcome : mem2_malloc lwp newsize area s ≡ (set_heap lwp area got.0 s, got.1)
    unfolding mem2_malloc mem2_memalign
    malloc_outcome = let z : (newsize == 0) ≡ false = ground arith in rw (z, usable) refl

    free_outcome :
        (t : Heaps lwp)
        → is_unusable lwp area t ≡ false
        → mem2_free lwp p area t ≡ set_heap lwp area (lwp.free (t.heaps area) p) t
    unfolding mem2_free
    free_outcome t u = rw (ne_test p 0 some_block, u) refl

    realloc_outcome : mem2_realloc lwp p newsize area s ≡ outcome
    unfolding mem2_realloc
    realloc_outcome =
        let z : (newsize == 0) ≡ false = ground arith in
        rw (ne_test p 0 some_block, z, usable, malloc_outcome) refl

    free_copied : mem2_free lwp p area copied ≡ set_heap lwp area (lwp.free got.0 p) copied
    unfolding is_unusable
    free_copied =
        free_outcome copied usable
        ∙ ap (λ h. set_heap lwp area (lwp.free h p) copied) (rw (eq_self area) refl)

    owner_after :
        (a : ℕ)
        → owner ((set_heap lwp area (lwp.free got.0 p) copied).heaps area) a
          ≡ (if owner got.0 a == p then 0 else owner got.0 a)
    owner_after a = rw (eq_self area) (lwp.owner-free got.0 p a)

    outside :
        got.1 ≢ 0
        → (n a : ℕ) → n ≤ newsize
        → owner (s.heaps area) a ≢ 0
        → (leb got.1 a && ltb a (got.1 + n)) ≡ false
    outside got_one n a le taken = elim (Bool-cases (leb got.1 a && ltb a (got.1 + n))) [
      | inr no_byte ↦ no_byte
      | inl byte ↦
          let r = inside_range got.1 n a byte in
          absurd (
            taken (
              ap (owner (s.heaps area)) r.1
              ∙ lwp.was_free (s.heaps area) newsize (a - got.1) got_one (omega arith)))
    ]

    -- The size that is read is at least what the user has of the block.
    block_size-covers :
        (i : ℕ)
        → owner (s.heaps area) p ≡ p
        → owner (s.heaps area) (p + i) ≡ p
        → i < block_size lwp (s.heaps area) p
    unfolding block_size
    block_size-covers i own mine =
        let h = s.heaps area in
        let inside = lwp.block_in h p is_kept own some_block in
        let used = lwp.block_used h p is_kept own some_block in
        let covers = lwp.block_covers h p i is_kept own some_block mine in ground arith

    outcome-Moved :
        owner (s.heaps area) p ≡ p
        → got.1 ≢ 0
        → Moved (set_heap lwp area (lwp.free got.0 p) copied, got.1)
    outcome-Moved own got_one = record {
      moved = λ i h mine.
          let covers = block_size-covers i own mine in
          copy_at_inside got.1 p (min (block_size lwp (s.heaps area) p) newsize) i s.memory
            (omega arith);
      kept = λ a h.
          copy_at_outside got.1 p _ a s.memory
            (outside got_one (min (block_size lwp (s.heaps area) p) newsize) a (omega arith) h);
      freed = λ a h.
          let stays = lwp.others_stay (s.heaps area) newsize a (λ z. some_block (sym h ∙ z)) in
          let mine : (owner got.0 a == p) ≡ true = ground arith in owner_after a ∙ (rw mine refl);
      others = λ a h k.
          let stays = lwp.others_stay (s.heaps area) newsize a h in
          let other : (owner got.0 a == p) ≡ false = ne_test _ p (λ z. k (sym stays ∙ z)) in
          owner_after a ∙ (rw other stays);
      given = λ i h.
          let new = lwp.is_taken (s.heaps area) newsize i got_one h in
          let free : owner (s.heaps area) (got.1 + 0) ≡ 0 =
            lwp.was_free (s.heaps area) newsize 0 got_one some_size in
          let apart : got.1 ≢ p =
            λ e. some_block (sym own ∙ ap (owner (s.heaps area)) (sym e ∙ (omega arith)) ∙ free) in
          let other : (owner got.0 (got.1 + i) == p) ≡ false =
            ne_test _ p (λ z. apart (sym new ∙ z)) in
          owner_after (got.1 + i) ∙ (rw other new);
    }

    -- For a block of an area with a heap that libogc keeps as it should, and a size that is not 0: the block is
    -- moved, with every byte that the user had of it below the new size, while no other block is touched;
    -- or, where the heap has no room, the result is NULL and neither memory nor the blocks have changed.
    pub mem2_realloc-Moved :
        owner (s.heaps area) p ≡ p
        → Moved (mem2_realloc lwp p newsize area s) ⊎ Refused (mem2_realloc lwp p newsize area s)
    mem2_realloc-Moved own = elim (Bool-cases (got.1 == 0)) [
      | inl full ↦ inr (
          rw (realloc_outcome, full)
            (record {
              null = refl;
              same_memory = λ a. refl;
              same_owner =
                  λ a. rw (eq_self area) (lwp.none_taken (s.heaps area) newsize a (ground arith));
            }))
      | inr room ↦
          inl (rw (realloc_outcome, room) (rw free_copied (outcome-Moved own (λ e. ground arith))))
    ]

-- The product is taken of 32 bits: `mem2_calloc` asks for what is left of it.
pub calloc_wraps :
    (lwp : LwpHeap) (num size area : ℕ) (s : Heaps lwp)
    → mem2_calloc lwp num size area s ≡ mem2_calloc lwp 1 (num * size % 2 ^ 32) area s
unfolding mem2_calloc
calloc_wraps lwp num size area s =
    let once : 1 * (num * size % 2 ^ 32) % 2 ^ 32 ≡ num * size % 2 ^ 32 = omega arith in
    rw once refl
