-- ===== src/FrameQueue.antt =====
-- src/wii/wii.c: the queue of decoded frames between the decoder thread (`add_frame`) and the
-- drawing loop (`get_frame`). Each function holds `queueMutex` from its first line to its return,
-- so two threads interleave whole calls. A `frame_t*` is a number.
pub mod Inv
pub mod Refine
mod Tests
use moonlight_wii.Prelude.{
  ℕ, ◌+◌, ◌-◌, ◌%◌, ◌^◌, Option, none, List, [], ◌∷◌, ◌==◌, if◌then◌else◌, set, get_elem?,
}

abbrev pub max_queuemessages : ℕ
max_queuemessages = 16

-- `uint32_t` arithmetic.
abbrev pub u32_mod : ℕ
u32_mod = 2 ^ 32

-- The static state of wii.c; `messages` is `queueMessages`.
pub record FrameQueue : Type 0 where
  pub messages : List ℕ
  pub write_index : ℕ
  pub read_index : ℕ

-- The indices as `wii_stream_init` leaves them; the slots keep what they held.
unfoldable pub stream_init : FrameQueue → FrameQueue
stream_init q = record q { write_index = 0; read_index = 0 }

-- queueWriteIndex - queueReadIndex
unfoldable pub elements_in : FrameQueue → ℕ
elements_in q = (q.write_index + u32_mod - q.read_index) % u32_mod

-- index & (MAX_QUEUEMESSAGES - 1): the mask of a power of two is the remainder.
abbrev pub slot : ℕ → ℕ
slot i = i % max_queuemessages

-- The option is what the pointer returned holds: `none` for NULL (and for a read past the array,
-- which `slot` rules out).
unfoldable pub get_frame : FrameQueue → Option ℕ × FrameQueue
unfolding elements_in
get_frame q = if elements_in q == 0 then (none, q) else (
  get_elem? q.messages (slot q.read_index),
  record q { read_index = (q.read_index + 1) % u32_mod },
)

unfoldable pub add_frame : ℕ → FrameQueue → FrameQueue
unfolding elements_in
add_frame msg q = if elements_in q == max_queuemessages then q else record q {
  messages = set q.messages (slot q.write_index) msg;
  write_index = (q.write_index + 1) % u32_mod;
}

-- One call of either thread.
pub data Call : Type 0 where
  add : ℕ → Call
  get : Call

-- What the drawing loop receives from an interleaving of calls.
unfoldable pub run : FrameQueue → List Call → List (Option ℕ)
unfolding get_frame add_frame
run q [] = []
run q (add msg ∷ calls) = run (add_frame msg q) calls
run q (get ∷ calls) = let (out, q') = get_frame q in out ∷ run q' calls
