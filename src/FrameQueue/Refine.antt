-- ===== src/FrameQueue/Refine.antt =====
-- The frame queue is a FIFO of at most 16 frames that drops a frame when it is full.
use moonlight_wii.Prelude.{
  ℕ, zero, suc, ◌+◌, ◌%◌, ◌<◌, ◌≡◌, ◌≢◌, refl, ap, Option, none, some, List, [], ◌∷◌, ◌++◌, arith,
  length, get_or, set, get_elem?, ◌==◌, if◌then◌else◌,
}
use moonlight_wii.Circular.{window, length-window, window-mod, window-set}
use moonlight_wii.FrameQueue.{
  FrameQueue, Call, add, get, u32_mod, max_queuemessages, slot, elements_in, get_frame, add_frame,
  run,
}
use moonlight_wii.FrameQueue.Inv.{IsValid, get_frame-IsValid, add_frame-IsValid}

abbrev pub contents : FrameQueue → List ℕ
contents q = window 0 max_queuemessages q.messages q.read_index (elements_in q)

-- The specification: a list, oldest first.
abbrev pub fifo_add : ℕ → List ℕ → List ℕ
fifo_add msg l = if length l == max_queuemessages then l else l ++ msg ∷ []

abbrev pub fifo_get : List ℕ → Option ℕ × List ℕ
fifo_get [] = (none, [])
fifo_get (x ∷ l) = (some x, l)

abbrev pub fifo_run : List ℕ → List Call → List (Option ℕ)
fifo_run l [] = []
fifo_run l (add msg ∷ calls) = fifo_run (fifo_add msg l) calls
fifo_run l (get ∷ calls) = let (out, l') = fifo_get l in out ∷ fifo_run l' calls

pub length-contents : (q : FrameQueue) → length (contents q) ≡ elements_in q
length-contents q = length-window 0 max_queuemessages q.messages q.read_index (elements_in q)

get_elem?-eq-get_or : (xs : List ℕ) (i : ℕ) → i < length xs → get_elem? xs i ≡ some (get_or xs i 0)
get_elem?-eq-get_or [] i h = elim h [ ]
get_elem?-eq-get_or (x ∷ xs) zero h = refl
get_elem?-eq-get_or (x ∷ xs) (suc i) h = get_elem?-eq-get_or xs i (omega arith)

abbrev added : ℕ → FrameQueue → FrameQueue
added msg q = record q {
  messages = set q.messages (slot q.write_index) msg;
  write_index = (q.write_index + 1) % u32_mod;
}

elements_in-added :
    (msg : ℕ) (q : FrameQueue)
    → IsValid q
    → elements_in q ≢ max_queuemessages
    → elements_in (added msg q) ≡ suc (elements_in q)
unfolding elements_in
elements_in-added msg q v h = omega arith

slot-write : (q : FrameQueue) → IsValid q → slot q.write_index ≡ slot (q.read_index + elements_in q)
unfolding elements_in
slot-write q v = omega arith

contents-added :
    (msg : ℕ) (q : FrameQueue)
    → IsValid q
    → elements_in q ≢ max_queuemessages
    → contents (added msg q) ≡ contents q ++ msg ∷ []
contents-added msg q v h = rw (elements_in-added msg q v h) (
    window-set 0 max_queuemessages q.messages msg q.read_index (elements_in q) (slot q.write_index)
      v.slots (omega arith) (slot-write q v))

-- `add_frame` drops the frame exactly when 16 are queued, and appends it otherwise.
pub add_frame_refines :
    (msg : ℕ) (q : FrameQueue) → IsValid q → contents (add_frame msg q) ≡ fifo_add msg (contents q)
unfolding add_frame
add_frame_refines msg q v = ground (arith, length-contents q, contents-added msg q v)

abbrev taken : FrameQueue → FrameQueue
taken q = record q { read_index = (q.read_index + 1) % u32_mod }

elements_in-taken :
    (q : FrameQueue) → IsValid q → (n : ℕ) → elements_in q ≡ suc n → elements_in (taken q) ≡ n
unfolding elements_in
elements_in-taken q v n h = omega arith

-- A queue that is not empty is its oldest frame and what is left when that is taken.
contents-taken :
    (q : FrameQueue)
    → IsValid q
    → (n : ℕ) → elements_in q ≡ suc n
    → contents q ≡ get_or q.messages (slot q.read_index) 0 ∷ contents (taken q)
contents-taken q v n h =
    rw (elements_in-taken q v n h, h)
      (ap (λ l. get_or q.messages (slot q.read_index) 0 ∷ l)
        (window-mod 0 max_queuemessages q.messages (q.read_index + 1) ((q.read_index + 1) % u32_mod)
          n (omega arith)))

-- `get_frame` returns NULL exactly when the queue is empty, and else takes the oldest frame.
pub get_frame_refines :
    (q : FrameQueue)
    → IsValid q
    → let (out, q') = get_frame q in (out, contents q') ≡ fifo_get (contents q)
unfolding get_frame
get_frame_refines q v = split (elements_in q) refl
  where
    split :
        (n : ℕ)
        → elements_in q ≡ n
        → let (out, q') = get_frame q in (out, contents q') ≡ fifo_get (contents q)
    split zero e = ground (arith, ap (window 0 max_queuemessages q.messages q.read_index) e)
    split (suc n) e =
        ground (arith, contents-taken q v n e, get_elem?-eq-get_or q.messages (slot q.read_index))

-- Whatever the interleaving of the two threads, and also where an index wraps, the drawing loop
-- receives what the bounded FIFO gives.
pub run_refines :
    (calls : List Call) (q : FrameQueue) → IsValid q → run q calls ≡ fifo_run (contents q) calls
unfolding run
run_refines [] q v = refl
run_refines (add msg ∷ calls) q v =
    rw (run_refines calls (add_frame msg q) (add_frame-IsValid msg v), add_frame_refines msg q v)
run_refines (get ∷ calls) q v =
    rw (run_refines calls (get_frame q).1 (get_frame-IsValid v), ← get_frame_refines q v)
