-- ===== src/Audio/Stream/Carry.antt =====
-- The first part of `append_to_ring` in src/wii/audio.c, which fills a carry that was begun.
use moonlight_wii.Prelude.{
  ℕ, zero, suc, ◌+◌, ◌-◌, ◌*◌, ◌≤◌, ◌<◌, ◌≡◌, refl, ap, sym, ◌∙◌, ◌⊎◌, [], ◌∷◌, ◌++◌, arith, length,
  take, drop, min, append_assoc, append-nil, if◌then◌else◌, ◌==◌, Bool-cases, inl, inr, length-take,
  length-drop, length-append, take-append-drop, ==_iff,
}
use moonlight_wii.Audio.{
  Audio, Samples, buffer_size, buffer_count, push_buffer, commit_carry, fill_carry,
}
use moonlight_wii.Audio.Inv.{
  IsValid, join, join_append, queued, stream, push_buffer-IsValid, queued-push_buffer,
}

-- What is buffered before the loop may start, in which there is space for one more buffer.
abbrev pub space : ℕ
space = buffer_size * (buffer_count - 2)

-- The ring is valid, and the carry is no full buffer.
pub record IsReady (a : Audio) : Type 0 where
  pub valid : IsValid a
  pub short : length a.carry < buffer_size

-- What the first part of `append_to_ring` leaves: of the chunk or of the carry nothing is left.
pub record Filled (src : Samples) (a : Audio) (out : Samples × Audio) : Type 0 where
  pub ready : IsReady out.1
  pub one_empty : (out.0 ≡ []) ⊎ (out.1.carry ≡ [])
  pub room : out.1.buffered + length out.0 ≤ a.buffered + length a.carry + length src
  pub kept : stream out.1 ++ out.0 ≡ stream a ++ src

pub stream-push_buffer :
    (b : Samples) (a : Audio)
    → IsValid a
    → a.buffered < buffer_size * buffer_count
    → join (queued (push_buffer b a)) ≡ join (queued a) ++ b
stream-push_buffer b a v h =
    ap join (queued-push_buffer b a v h)
    ∙ join_append (queued a) (b ∷ [])
    ∙ ap (λ s. join (queued a) ++ s) (append-nil b)

drop_all : (s : Samples) (n : ℕ) → length s ≤ n → drop n s ≡ []
drop_all [] zero h = refl
drop_all [] (suc n) h = refl
drop_all (x ∷ s) zero h = absurd (omega arith)
drop_all (x ∷ s) (suc n) h = drop_all s n (omega arith)

length-zero : (s : Samples) → length s ≡ 0 → s ≡ []
length-zero [] h = refl
length-zero (x ∷ s) h = absurd (omega arith)

-- The carry takes what it has room for.
filled : Samples → Audio → Audio
filled src a = record a {
  carry = a.carry ++ take (min (length src) (buffer_size - length a.carry)) src;
}

length-filled :
    (src : Samples) (a : Audio)
    → length (filled src a).carry ≡ length a.carry + min (length src) (buffer_size - length a.carry)
unfolding filled
length-filled src a = omega (
  arith,
  length-append {0} a.carry (take (min (length src) (buffer_size - length a.carry)) src),
  length-take {0} (min (length src) (buffer_size - length a.carry)) src,
)

stream-filled :
    (src : Samples) (a : Audio)
    → stream (filled src a) ++ drop (min (length src) (buffer_size - length a.carry)) src
      ≡ stream a ++ src
unfolding filled
stream-filled src a =
    let n = min (length src) (buffer_size - length a.carry) in
    append_assoc (join (queued a)) (a.carry ++ take n src) (drop n src)
    ∙ ap (λ s. join (queued a) ++ s)
        (append_assoc a.carry (take n src) (drop n src)
          ∙ ap (λ s. a.carry ++ s) (take-append-drop n src))
    ∙ sym (append_assoc (join (queued a)) a.carry src)

-- The invariant says nothing of the carry.
pub IsValid-carry : (c : Samples) {a : Audio} → IsValid a → IsValid (record a { carry = c })
IsValid-carry c v = record {
  slots = v.slots;
  fill = v.fill;
  play = v.play;
  whole = v.whole;
  fits = v.fits;
}

commit_carry-IsReady :
    (a : Audio) → IsValid a → a.buffered < buffer_size * buffer_count → IsReady (commit_carry a)
unfolding commit_carry
commit_carry-IsReady a v h = record {
  valid = IsValid-carry [] (push_buffer-IsValid a.carry a v h);
  short = omega arith;
}

stream-commit_carry :
    (a : Audio)
    → IsValid a
    → a.buffered < buffer_size * buffer_count
    → (stream (commit_carry a) ≡ stream a)
      × ((commit_carry a).carry ≡ [])
      × ((commit_carry a).buffered ≡ a.buffered + buffer_size)
unfolding commit_carry push_buffer
stream-commit_carry a v h =
    (append-nil _ ∙ (unfold push_buffer in stream-push_buffer a.carry a v h), refl, refl)

-- A carry that was begun: it is filled, and committed where that makes a full buffer.
filled-Filled :
    (src : Samples) (a : Audio)
    → IsReady a
    → a.buffered + length a.carry + length src ≤ space
    → let a' = filled src a in
      let rest = drop (min (length src) (buffer_size - length a.carry)) src in
      Filled src a (rest, if length a'.carry == buffer_size then commit_carry a' else a')
filled-Filled src a v h = elim (Bool-cases (length (filled src a).carry == buffer_size)) [
  | inl full ↦ rw full (full_carry ((==_iff _ _).0 full))
  | inr short ↦ rw short (record {
    ready = record { valid = filled_valid; short = ground (arith, length-filled src a) };
    one_empty = inl (drop_all src taken (ground (arith, length-filled src a)));
    room = omega (arith, length-filled src a, length-drop {0} taken src, filled_buffered);
    kept = stream-filled src a;
  })
]
  where
    taken : ℕ
    taken = min (length src) (buffer_size - length a.carry)

    filled_valid : IsValid (filled src a)
    filled_valid = unfold filled in IsValid-carry _ v.valid

    filled_buffered : (filled src a).buffered ≡ a.buffered
    filled_buffered = unfold filled in refl

    full_carry :
        length (filled src a).carry ≡ buffer_size
        → Filled src a (drop taken src, commit_carry (filled src a))
    full_carry e =
        let fits : (filled src a).buffered < buffer_size * buffer_count =
          omega (arith, filled_buffered, v.valid.fits) in
        let c = stream-commit_carry (filled src a) filled_valid fits in
        record {
          ready = commit_carry-IsReady (filled src a) filled_valid fits;
          one_empty = inr c.1;
          room =
              omega (arith, c.2, filled_buffered, length-filled src a, length-drop {0} taken src);
          kept = ap (λ s. s ++ drop taken src) c.0 ∙ stream-filled src a;
        }

pub fill_carry-Filled :
    (src : Samples) (a : Audio)
    → IsReady a
    → a.buffered + length a.carry + length src ≤ space
    → Filled src a (fill_carry src a)
unfolding fill_carry
fill_carry-Filled src a v h = elim (Bool-cases (length a.carry == 0)) [
  | inl empty ↦ rw empty (record {
    ready = v;
    one_empty = inr (length-zero a.carry ((==_iff _ _).0 empty));
    room = omega arith;
    kept = refl;
  })
  | inr begun ↦ rw begun (unfold filled in filled-Filled src a v h)
]
