-- ===== src/Mem2/Heaps.antt =====
-- src/wii/mem2_manager.c: `ClearMem2Area`, `__lwp_heap_block_size` and the `mem2_*` calls. The heap of an
-- area is that of lwp_heap of libogc, a parameter: its ends, and the words that it keeps in front of a
-- block, of which HEAP_BLOCK_USED is the lowest bit of the flag. A pointer is a number, NULL is 0, and
-- memory is a function from addresses; only what lies in blocks is followed there.
pub mod Moves
mod Tests
use moonlight_wii.Prelude.{
  ℕ, ◌+◌, ◌-◌, ◌*◌, ◌%◌, ◌^◌, ◌<◌, ◌≤◌, ◌≡◌, ◌≢◌, refl, ap, sym, ◌∙◌, Bool, true, false, not, ◌&&◌,
  ◌||◌, min, if◌then◌else◌, ltb, leb, ◌==◌, length, get_or, Bool-cases, inl, inr,
}
use moonlight_wii.Mem2.{Area, Mem2, no_area}

-- __lwp_heap_usrblockat: the block of a user's pointer, from the word in front of it.
unfoldable pub usrblock_at : ℕ → ℕ → ℕ → ℕ
usrblock_at overhead offset p = (p + 2 ^ 33 - offset - overhead) % 2 ^ 32

-- `owner` says in which block a byte lies, by the pointer that was given for it, and 0 where it lies in
-- none: a block has the bytes that were asked for, and may have more. `allocate` gives a block of free
-- bytes or NULL, and leaves the others alone; `free` gives back the bytes of one block. In a heap as
-- libogc keeps it, the block of a pointer lies between the ends, is marked as used, and its flag is at
-- least as large as what the user has of it.
pub record LwpHeap : Type 1 where
  pub Heap : Type 0
  pub init : ℕ → ℕ → Heap
  pub allocate : Heap → ℕ → Heap × ℕ
  pub free : Heap → ℕ → Heap
  pub free_size : Heap → ℕ
  pub first : Heap → ℕ
  pub final : Heap → ℕ
  pub used_overhead : ℕ
  pub offset_word : Heap → ℕ → ℕ
  pub front_flag : Heap → ℕ → ℕ
  pub owner : Heap → ℕ → ℕ
  pub IsKept : Heap → Type 0
  pub block_in :
      (h : Heap) (p : ℕ)
      → IsKept h
      → owner h p ≡ p
      → p ≢ 0
      → (first h ≤ usrblock_at used_overhead (offset_word h p) p)
        × (usrblock_at used_overhead (offset_word h p) p ≤ final h)
  pub block_used :
      (h : Heap) (p : ℕ)
      → IsKept h
      → owner h p ≡ p
      → p ≢ 0
      → front_flag h (usrblock_at used_overhead (offset_word h p) p) % 2 ≡ 1
  pub block_covers :
      (h : Heap) (p i : ℕ)
      → IsKept h
      → owner h p ≡ p
      → p ≢ 0
      → owner h (p + i) ≡ p
      → i + 1 < front_flag h (usrblock_at used_overhead (offset_word h p) p)
  pub was_free :
      (h : Heap) (n i : ℕ) → (allocate h n).1 ≢ 0 → i < n → owner h ((allocate h n).1 + i) ≡ 0
  pub is_taken :
      (h : Heap) (n i : ℕ)
      → (allocate h n).1 ≢ 0
      → i < n
      → owner (allocate h n).0 ((allocate h n).1 + i) ≡ (allocate h n).1
  pub others_stay : (h : Heap) (n a : ℕ) → owner h a ≢ 0 → owner (allocate h n).0 a ≡ owner h a
  pub none_taken :
      (h : Heap) (n a : ℕ) → (allocate h n).1 ≡ 0 → owner (allocate h n).0 a ≡ owner h a
  pub owner-free :
      (h : Heap) (p a : ℕ) → owner (free h p) a ≡ (if owner h a == p then 0 else owner h a)

-- memset(p, v, n) and memcpy(q, p, n), of blocks that do not overlap.
abbrev pub fill_at : ℕ → ℕ → ℕ → (ℕ → ℕ) → ℕ → ℕ
fill_at p v n memory a = if leb p a && ltb a (p + n) then v else memory a

abbrev pub copy_at : ℕ → ℕ → ℕ → (ℕ → ℕ) → ℕ → ℕ
copy_at q p n memory a = if leb q a && ltb a (q + n) then memory (p + (a - q)) else memory a

module _ (lwp : LwpHeap) where
  open lwp use {
    Heap, init, allocate, free_size, first, final, used_overhead, offset_word, front_flag,
  }

  pub record Heaps : Type 0 where
    pub mem2 : Mem2
    pub heaps : ℕ → Heap
    pub memory : ℕ → ℕ

  abbrev pub set_heap : ℕ → Heap → Heaps → Heaps
  set_heap area h s = record s { heaps = λ i. if i == area then h else s.heaps i }

  -- No area, or one without a heap.
  unfoldable pub is_unusable : ℕ → Heaps → Bool
  is_unusable area s =
      leb (length s.mem2.areas) area || (get_or s.mem2.areas area no_area).size == 0

  unfoldable pub clear_mem2_area : ℕ → Heaps → Heaps
  unfolding is_unusable
  clear_mem2_area area s =
      let a = get_or s.mem2.areas area no_area in
      if is_unusable area s
      then s
      else set_heap area (init a.heap_ptr a.size)
          (record s { memory = fill_at a.heap_ptr 0 a.size s.memory })

  unfoldable pub mem2_memalign : ℕ → ℕ → Heaps → Heaps × ℕ
  mem2_memalign size area s =
      let (h, p) = allocate (s.heaps area) size in
      if size == 0 || is_unusable area s then (s, 0) else (set_heap area h s, p)

  unfoldable pub mem2_malloc : ℕ → ℕ → Heaps → Heaps × ℕ
  unfolding mem2_memalign
  mem2_malloc size area s = mem2_memalign size area s

  -- num * size is of 32 bits.
  unfoldable pub mem2_calloc : ℕ → ℕ → ℕ → Heaps → Heaps × ℕ
  mem2_calloc num size area s =
      let n = num * size % 2 ^ 32 in
      let (t, p) = mem2_malloc n area s in
      if p == 0 then (t, 0) else (record t { memory = fill_at p 0 n t.memory }, p)

  unfoldable pub mem2_free : ℕ → ℕ → Heaps → Heaps
  mem2_free p area s =
      if p == 0 || is_unusable area s then s else set_heap area (lwp.free (s.heaps area) p) s

  -- __lwp_heap_block_size: 0 for a block outside the heap or a free one, and else the flag without its
  -- lowest bit, the size of the whole block with its header.
  unfoldable pub block_size : Heap → ℕ → ℕ
  unfolding usrblock_at
  block_size h p =
      let block = usrblock_at used_overhead (offset_word h p) p in
      let flag = front_flag h block in
      if not (leb (first h) block && leb block (final h)) || flag % 2 == 0
      then 0
      else flag - flag % 2

  unfoldable pub mem2_realloc : ℕ → ℕ → ℕ → Heaps → Heaps × ℕ
  mem2_realloc p newsize area s =
      let size = min (block_size (s.heaps area) p) newsize in
      let (t, q) = mem2_malloc newsize area s in
      if p == 0
      then mem2_malloc newsize area s
      else if newsize == 0
      then (mem2_free p area s, 0)
      else if is_unusable area s
      then (s, 0)
      else if q == 0
      then (t, 0)
      else (mem2_free p area (record t { memory = copy_at q p size t.memory }), q)

  unfoldable pub mem2_size : ℕ → Heaps → ℕ
  unfolding is_unusable
  mem2_size area s = if is_unusable area s then 0 else free_size (s.heaps area)
