-- ===== src/FrameQueue/Inv.antt =====
-- The invariant of the frame queue: the count never passes the array, also when an index wraps.
use moonlight_wii.Prelude.{ℕ, ◌≤◌, ◌<◌, ◌≡◌, arith, length, length-set}
use moonlight_wii.FrameQueue.{
  FrameQueue, u32_mod, max_queuemessages, slot, elements_in, stream_init, get_frame, add_frame,
}

pub record IsValid (q : FrameQueue) : Type 0 where
  pub slots : length q.messages ≡ max_queuemessages
  pub write_fits : q.write_index < u32_mod
  pub read_fits : q.read_index < u32_mod
  pub bounded : elements_in q ≤ max_queuemessages

-- `wii_stream_init` makes the queue valid, if its array has 16 slots.
pub stream_init-IsValid :
    (q : FrameQueue) → length q.messages ≡ max_queuemessages → IsValid (stream_init q)
unfolding stream_init elements_in
stream_init-IsValid q h = omega arith

-- `get_frame` keeps the queue valid.
pub get_frame-IsValid : {q : FrameQueue} → IsValid q → IsValid (get_frame q).1
unfolding get_frame
get_frame-IsValid v = ground arith

-- `add_frame` keeps the queue valid: its array has 16 slots, each index is a `uint32_t`, and the
-- difference of the indices modulo 2^32 is at most 16.
pub add_frame-IsValid : (msg : ℕ) {q : FrameQueue} → IsValid q → IsValid (add_frame msg q)
unfolding add_frame
add_frame-IsValid msg {q} v = ground (arith, length-set q.messages (slot q.write_index) msg)
