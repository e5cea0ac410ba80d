-- ===== src/FrameQueue/Tests.antt =====
-- Runs of the frame queue, and the theorems at concrete queues.
use moonlight_wii.Prelude.{◌-◌, ◌≡◌, refl, none, some, List, [], ◌∷◌, ◌++◌, arith, replicate}
use moonlight_wii.FrameQueue.{
  FrameQueue, Call, add, get, u32_mod, run, elements_in, add_frame, get_frame,
}
use moonlight_wii.FrameQueue.Inv.{IsValid}
use moonlight_wii.FrameQueue.Refine.{
  contents, fifo_add, fifo_get, fifo_run, add_frame_refines, get_frame_refines, run_refines,
}

-- Both indices stand just below the wrap of `uint32_t`; one frame, 7, is queued.
abbrev wrapping : FrameQueue
wrapping = record {
  messages = replicate 14 0 ++ 7 ∷ 0 ∷ [];
  write_index = u32_mod - 1;
  read_index = u32_mod - 2;
}

abbrev calls : List Call
calls = add 8 ∷ add 9 ∷ get ∷ get ∷ get ∷ get ∷ []

run-wrapping : run wrapping calls ≡ some 7 ∷ some 8 ∷ some 9 ∷ none ∷ []
unfolding run
run-wrapping = refl

wrapping-IsValid : IsValid wrapping
unfolding elements_in
wrapping-IsValid = omega arith

add_frame_refines_example : contents (add_frame 8 wrapping) ≡ fifo_add 8 (contents wrapping)
add_frame_refines_example = add_frame_refines 8 wrapping wrapping-IsValid

get_frame_refines_example :
    let (out, q') = get_frame wrapping in (out, contents q') ≡ fifo_get (contents wrapping)
get_frame_refines_example = get_frame_refines wrapping wrapping-IsValid

run_refines_example : run wrapping calls ≡ fifo_run (contents wrapping) calls
run_refines_example = run_refines calls wrapping wrapping-IsValid
