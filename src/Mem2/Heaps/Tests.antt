-- ===== src/Mem2/Heaps/Tests.antt =====
-- A heap that hands out its bytes in order, which meets what is asked of lwp_heap, and blocks in it.
use moonlight_wii.Prelude.{
  some, ℕ, zero, suc, ◌+◌, ◌-◌, ◌^◌, ◌<◌, ◌≤◌, ◌≡◌, ◌≢◌, ◌⊎◌, refl, ap, sym, ◌∙◌, Bool, true, not,
  ◌&&◌, arith, [], ◌∷◌, if◌then◌else◌, ltb, leb, ◌==◌, Bool-cases, inl, inr,
}
use moonlight_wii.Mem2.Heaps.{
  LwpHeap, Heaps, usrblock_at, block_size, is_unusable, mem2_memalign, mem2_malloc, mem2_free,
  mem2_realloc,
}
use moonlight_wii.Mem2.Heaps.Moves.{Moved, Refused, mem2_realloc-Moved}

record Bytewise : Type 0 where
  owner : ℕ → ℕ
  next : ℕ

all_free : (ℕ → ℕ) → ℕ → ℕ → Bool
all_free o p zero = true
all_free o p (suc n) = o (p + n) == 0 && all_free o p n

all_free_lem : (o : ℕ → ℕ) (p n i : ℕ) → all_free o p n ≡ true → i < n → o (p + i) ≡ 0
unfolding all_free
all_free_lem o p zero i h l = absurd (omega arith)
all_free_lem o p (suc n) i h l = elim (Bool-cases (i == n)) [
  | inl e ↦
      let last : i ≡ n = ground arith in
      let byte : o (p + n) ≡ 0 = ground arith in ap (λ k. o (p + k)) last ∙ byte
  | inr e ↦ ground (arith, all_free_lem o p n i)
]

abbrev has_room : Bytewise → ℕ → Bool
has_room h n = all_free h.owner h.next n && not (h.next == 0)

take_bytes : Bytewise → ℕ → Bytewise × ℕ
take_bytes h n =
    if has_room h n
    then (
      record {
        owner = λ a. if leb h.next a && ltb a (h.next + n) then h.next else h.owner a;
        next = h.next + n;
      },
      h.next,
    )
    else (h, 0)

took : (h : Bytewise) (n : ℕ) → (take_bytes h n).1 ≢ 0 → has_room h n ≡ true
unfolding take_bytes
took h n k = elim (Bool-cases (has_room h n)) [ inl e ↦ e | inr e ↦ absurd (k (rw e refl)) ]

took_free : (h : Bytewise) (n i : ℕ) → has_room h n ≡ true → i < n → h.owner (h.next + i) ≡ 0
took_free h n i r l = all_free_lem h.owner h.next n i (ground arith) l

abbrev give_back : Bytewise → ℕ → Bytewise
give_back h p = record h { owner = λ a. if h.owner a == p then 0 else h.owner a }

bytes_were_free :
    (h : Bytewise) (n i : ℕ) → (take_bytes h n).1 ≢ 0 → i < n → h.owner ((take_bytes h n).1 + i) ≡ 0
unfolding take_bytes
bytes_were_free h n i k l = let r = took h n k in rw r (took_free h n i r l)

bytes_are_taken :
    (h : Bytewise) (n i : ℕ)
    → (take_bytes h n).1 ≢ 0
    → i < n
    → (take_bytes h n).0.owner ((take_bytes h n).1 + i) ≡ (take_bytes h n).1
unfolding take_bytes
bytes_are_taken h n i k l = let r = took h n k in rw r (ground arith)

bytes_stay : (h : Bytewise) (n a : ℕ) → h.owner a ≢ 0 → (take_bytes h n).0.owner a ≡ h.owner a
unfolding take_bytes
bytes_stay h n a k = elim (Bool-cases (has_room h n)) [
  | inr e ↦ rw e refl
  | inl e ↦ elim (Bool-cases (leb h.next a && ltb a (h.next + n))) [
    | inr out ↦ rw (e, out) refl
    | inl byte ↦
        let place : a ≡ h.next + (a - h.next) = ground arith in
        absurd (k (ap h.owner place ∙ took_free h n (a - h.next) e (ground arith)))
  ]
]

bytes_unchanged :
    (h : Bytewise) (n a : ℕ) → (take_bytes h n).1 ≡ 0 → (take_bytes h n).0.owner a ≡ h.owner a
unfolding take_bytes
bytes_unchanged h n a z = elim (Bool-cases (has_room h n)) [
  | inr e ↦ rw e refl
  | inl e ↦
      let one : (take_bytes h n).1 ≡ h.next = rw e refl in
      let next : h.next ≡ 0 = sym one ∙ z in absurd (ground arith)
]

block_between : (p : ℕ) → (0 ≤ usrblock_at 0 0 p) × (usrblock_at 0 0 p ≤ 2 ^ 32)
unfolding usrblock_at
block_between p = (omega arith, omega arith)

abbrev bytewise : LwpHeap
bytewise = record {
  Heap = Bytewise;
  init = λ start size. record { owner = λ a. 0; next = start };
  allocate = take_bytes;
  free = give_back;
  free_size = λ h. 0;
  owner = λ h. h.owner;
  first = λ h. 0;
  final = λ h. 2 ^ 32;
  used_overhead = 0;
  offset_word = λ h p. 0;
  front_flag = λ h b. 65;
  IsKept =
      λ h. (p i : ℕ) → h.owner p ≡ p → p ≢ 0 → h.owner (p + i) ≡ p → (i + 1 < 65) × (p < 2 ^ 32);
  block_in = λ h p k own n. block_between p;
  block_used = λ h p k own n. refl;
  block_covers = λ h p i k own n mine. (k p i own n mine).0;
  was_free = bytes_were_free;
  is_taken = bytes_are_taken;
  others_stay = bytes_stay;
  none_taken = bytes_unchanged;
  owner-free = λ h p a. refl;
}

-- A block of eight bytes in the one area.
abbrev with_block : Heaps bytewise
with_block = record {
  mem2 = record {
    inited = true;
    areas = record { heap = some (16, 64); heap_ptr = 16; size = 64; old_arena2hi = 96 } ∷ [];
    arena2_lo = 8;
    arena2_hi = 16;
  };
  heaps = λ i. record { owner = λ a. if leb 16 a && ltb a 24 then 16 else 0; next = 24 };
  memory = λ a. a + 1;
}

-- Its one block is kept: sixteen is the only pointer.
with_block-IsKept : bytewise.IsKept (with_block.heaps 0)
with_block-IsKept p i own n mine =
    let is_pointer : p ≡ 16 = ground (arith, own) in ground (arith, mine, is_pointer)

mem2_realloc-Moved_example :
    Moved bytewise 16 12 0 with_block (mem2_realloc bytewise 16 12 0 with_block)
    ⊎ Refused bytewise 16 12 0 with_block (mem2_realloc bytewise 16 12 0 with_block)
unfolding is_unusable
mem2_realloc-Moved_example =
    mem2_realloc-Moved bytewise 16 12 0 with_block (omega arith) (omega arith) refl
      with_block-IsKept refl

-- The new block begins behind the old one. All its twelve bytes are copied, though the old one has eight.
enlarged :
    let (t, q) = mem2_realloc bytewise 16 12 0 with_block in
    (q ≡ 24) × (t.memory 24 ≡ 17) × (t.memory 35 ≡ 28) × (t.memory 36 ≡ 37)
unfolding mem2_realloc mem2_malloc mem2_memalign mem2_free is_unusable take_bytes all_free
    block_size usrblock_at
enlarged = (refl, refl, refl, refl)
