-- ===== src/Prelude/Memory.antt =====
-- Blocks of memory as lists of bytes: `memcpy` and `memset` at an offset. A byte written past the end of
-- the block is dropped; where a theorem says that a write fits, none is.
use moonlight_wii.Prelude.{
  ℕ, zero, suc, ◌+◌, ◌≤◌, ◌≡◌, refl, ap, sym, ◌∙◌, List, [], ◌∷◌, ◌++◌, arith, append_assoc, length,
  take, drop, replicate,
}
use native.Mathlib.Nat.{add-zero, add-suc}
use moonlight_wii.Prelude.Text.{Bytes}

-- The bytes `src` written over `block` from `offset` on.
unfoldable pub write : Bytes → ℕ → Bytes → Bytes
write [] offset src = []
write (b ∷ block) zero [] = b ∷ block
write (b ∷ block) zero (x ∷ src) = x ∷ write block zero src
write (b ∷ block) (suc offset) src = b ∷ write block offset src

-- memcpy(block + offset, src + from, n)
unfoldable pub memcpy : Bytes → ℕ → Bytes → ℕ → ℕ → Bytes
memcpy block offset src from n = write block offset (take n (drop from src))

-- memset(block + offset, value, n)
unfoldable pub memset : Bytes → ℕ → ℕ → ℕ → Bytes
memset block offset value n = write block offset (replicate n value)

pub length-write :
    (block : Bytes) (offset : ℕ) (src : Bytes) → length (write block offset src) ≡ length block
unfolding write
length-write [] offset src = refl
length-write (b ∷ block) zero [] = refl
length-write (b ∷ block) zero (x ∷ src) = ap suc (length-write block zero src)
length-write (b ∷ block) (suc offset) src = ap suc (length-write block offset src)

write_front :
    (block src : Bytes)
    → length src ≤ length block
    → write block 0 src ≡ src ++ drop (length src) block
unfolding write
write_front [] [] h = refl
write_front [] (x ∷ src) h = absurd (omega arith)
write_front (b ∷ block) [] h = refl
write_front (b ∷ block) (x ∷ src) h = ap (λ l. x ∷ l) (write_front block src (omega arith))

write_behind :
    (done block src : Bytes)
    → length src ≤ length block
    → write (done ++ block) (length done) src ≡ done ++ (src ++ drop (length src) block)
unfolding write
write_behind [] block src h = write_front block src h
write_behind (d ∷ done) block src h = ap (λ l. d ∷ l) (write_behind done block src h)

-- A write that fits, behind what is done of a block.
pub write-append :
    (done block src : Bytes) (offset : ℕ)
    → offset ≡ length done
    → length src ≤ length block
    → write (done ++ block) offset src ≡ (done ++ src) ++ drop (length src) block
write-append done block src offset e h =
    rw e (write_behind done block src h ∙ sym (append_assoc done src (drop (length src) block)))

drop_nil : (n : ℕ) → drop {A = ℕ} n [] ≡ []
drop_nil zero = refl
drop_nil (suc n) = refl

pub drop-drop : (m n : ℕ) (s : Bytes) → drop n (drop m s) ≡ drop (n + m) s
drop-drop zero n s = rw add-zero
drop-drop (suc m) n [] = drop_nil n ∙ sym (drop_nil (n + suc m))
drop-drop (suc m) n (x ∷ s) = rw add-suc (drop-drop m n s)

pub drop_all : (s : Bytes) (n : ℕ) → length s ≤ n → drop n s ≡ []
drop_all [] n h = drop_nil n
drop_all (x ∷ s) zero h = absurd (omega arith)
drop_all (x ∷ s) (suc n) h = drop_all s n (omega arith)

-- The blocks of a list, one behind the other.
abbrev pub join : List Bytes → Bytes
join [] = []
join (b ∷ bs) = b ++ join bs
