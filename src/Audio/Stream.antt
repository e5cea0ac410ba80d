-- ===== src/Audio/Stream.antt =====
-- What `append_to_ring` keeps of the decoded sound: with space in the ring, all of it, in order.
-- The child Carry is about what was left over from the chunk before.
use moonlight_wii.Prelude.{
  ℕ, zero, suc, ◌+◌, ◌-◌, ◌*◌, ◌/◌, ◌≤◌, ◌<◌, ◌≡◌, refl, ap, sym, ◌∙◌, ◌⊎◌, true, [], ◌∷◌, ◌++◌,
  arith, length, take, drop, min, append_assoc, append-nil, if◌then◌else◌, ltb, leb, ◌==◌, ◌&&◌,
  Bool-cases, inl, inr, length-take, length-drop, length-append, take-append-drop, ==_iff,
}
use moonlight_wii.Audio.{
  Audio, Samples, buffer_size, buffer_count, has_space, push_buffer, commit_carry, fill_carry,
  push_full, keep_rest, append_to_ring,
}
use moonlight_wii.Audio.Inv.{
  IsValid, join, join_append, queued, stream, push_buffer-IsValid, queued-push_buffer,
}
pub mod Carry
unfoldable pub use Carry.*

-- What the loop leaves: nothing in the carry, and less than a buffer of the chunk.
record Pushed (src : Samples) (a : Audio) (out : Samples × Audio) : Type 0 where
  valid : IsValid out.1
  carry : out.1.carry ≡ a.carry
  short : length out.0 < buffer_size
  kept : join (queued out.1) ++ out.0 ≡ join (queued a) ++ src

push_full-Pushed :
    (rounds : ℕ) (src : Samples) (a : Audio)
    → IsValid a
    → length src / buffer_size ≡ rounds
    → a.buffered + length src ≤ space
    → Pushed src a (push_full rounds src a)
unfolding push_full
push_full-Pushed zero src a v e h = record {
  valid = v;
  carry = refl;
  short = omega arith;
  kept = refl;
}
push_full-Pushed (suc rounds) src a v e h =
    let b = take buffer_size src in
    let test : (leb buffer_size (length src) && has_space a) ≡ true =
      unfold has_space in ground arith in
    let grown : (push_buffer b a).buffered ≡ a.buffered + buffer_size =
      unfold push_buffer in refl in
    let fits : a.buffered < buffer_size * buffer_count = omega arith in
    let left : length (drop buffer_size src) ≡ length src - buffer_size =
      length-drop buffer_size src in
    let ih =
      push_full-Pushed rounds (drop buffer_size src) (push_buffer b a)
        (push_buffer-IsValid b a v fits) (omega arith) (omega arith) in
    rw test (record {
      valid = ih.valid;
      carry = ih.carry ∙ (unfold push_buffer in refl);
      short = ih.short;
      kept =
          ih.kept
          ∙ ap (λ s. s ++ drop buffer_size src) (stream-push_buffer b a v fits)
          ∙ append_assoc (join (queued a)) b (drop buffer_size src)
          ∙ ap (λ s. join (queued a) ++ s) (take-append-drop buffer_size src);
    })

keep_rest-stream :
    (src : Samples) (a : Audio)
    → IsReady a
    → length src < buffer_size
    → (src ≡ []) ⊎ (a.carry ≡ [])
    → (stream (keep_rest src a) ≡ stream a ++ src) × IsReady (keep_rest src a)
unfolding keep_rest
keep_rest-stream [] a v h e = (sym (append-nil (stream a)), v)
keep_rest-stream (x ∷ src) a v h (inl e) = cc
keep_rest-stream (x ∷ src) a v h (inr e) =
    let test : (ltb 0 (suc (length src)) && ltb (suc (length src)) buffer_size) ≡ true =
      ground arith in
    rw test
      (rw e (rw append-nil refl), record { valid = IsValid-carry (x ∷ src) v.valid; short = h })

push_full-nil : (rounds : ℕ) (a : Audio) → push_full rounds [] a ≡ ([], a)
unfolding push_full
push_full-nil zero a = refl
push_full-nil (suc rounds) a = refl

stream-no_carry : (a : Audio) (s : Samples) → a.carry ≡ [] → stream a ++ s ≡ join (queued a) ++ s
stream-no_carry a s e =
    ap (λ c. (join (queued a) ++ c) ++ s) e ∙ ap (λ t. t ++ s) (append-nil (join (queued a)))

-- The loop and what follows it.
loop-stream :
    (src : Samples) (a : Audio)
    → IsReady a
    → a.buffered + length src ≤ space
    → (src ≡ []) ⊎ (a.carry ≡ [])
    → let (rest, a') = push_full (length src / buffer_size) src a in
      (stream (keep_rest rest a') ≡ stream a ++ src) × IsReady (keep_rest rest a')
loop-stream src a v h (inl e) =
    rw (e, push_full-nil) (keep_rest-stream [] a v (omega arith) (inl refl))
loop-stream src a v h (inr e) =
    let p = push_full-Pushed (length src / buffer_size) src a v.valid refl h in
    let out = push_full (length src / buffer_size) src a in
    let none_left : out.1.carry ≡ [] = p.carry ∙ e in
    let ready : IsReady out.1 = record { valid = p.valid; short = rw none_left (omega arith) } in
    let k = keep_rest-stream out.0 out.1 ready p.short (inr none_left) in
    (k.0 ∙ stream-no_carry out.1 out.0 none_left ∙ p.kept ∙ sym (stream-no_carry a src e), k.1)

-- With space in the ring for all of it, `append_to_ring` loses nothing of a chunk: the queued buffers and
-- the carry are what they were with the chunk at the end, whatever its length, and the ring is valid
-- with a carry below a buffer.
pub append_to_ring-stream :
    (src : Samples) (a : Audio)
    → IsReady a
    → a.buffered + length a.carry + length src ≤ space
    → (stream (append_to_ring src a) ≡ stream a ++ src) × IsReady (append_to_ring src a)
unfolding append_to_ring
append_to_ring-stream src a v h =
    let f = fill_carry-Filled src a v h in
    let l =
      loop-stream (fill_carry src a).0 (fill_carry src a).1 f.ready (omega (arith, f.room))
        f.one_empty in
    (l.0 ∙ f.kept, l.1)
