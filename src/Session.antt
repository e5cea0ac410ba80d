-- ===== src/Session.antt =====
-- src/main.c, src/_connection.c and src/wii/input.c: how a stream ends. The drawing loop of `do_stream`
-- reads `state` and `running`, which moonlight-common-c's thread and the input thread write.
pub mod Messages
pub mod Ends
mod Tests
use moonlight_wii.Prelude.{
  ℕ, zero, suc, ◌+◌, ◌≡◌, Bool, true, false, ◌&&◌, List, [], ◌∷◌, ◌++◌, ◌==◌, if◌then◌else◌,
}
use moonlight_wii.Prelude.Int.{ℤ, pos, negsuc}
use moonlight_wii.Prelude.Decimal.{print_int}
use moonlight_wii.Prelude.Text.{Bytes, codes}

-- The values of `state` that are used.
pub data Mode : Type 0 where
  invalid : Mode
  streaming : Mode
  stop_stream : Mode

-- Where `do_stream` stands: LiStartConnection has got a connection, the input thread was started, at the
-- test of the loop, in the call of `wii_stream_draw`, behind the loop, and at its end.
pub data Place : Type 0 where
  connected : Place
  listening : Place
  testing : Place
  drawing : Place
  stopping : Place
  ended : Place

-- `is_error` and `message_buffer` are for the menu that follows; `drawn` counts the calls of
-- `wii_stream_draw` that have returned.
pub record Session : Type 0 where
  pub mode : Mode
  pub running : Bool
  pub place : Place
  pub is_error : Bool
  pub message : Bytes
  pub drawn : ℕ

-- The text for an error code of Limelight.h; -100 is `negsuc 99`.
unfoldable pub message_of : ℤ → Bytes
unfolding print_int
message_of (pos n) =
    if n == 0
    then codes "Connection has been terminated gracefully.\n"
    else codes "Connection terminated with error: " ++ (print_int (pos n) ++ 10 ∷ [])
message_of (negsuc n) =
    if n == 99
    then codes
        "No video received from host.\n Check the host PC's firewall and port forwarding rules.\n"
    else if n == 100
    then codes
        "Your network connection isn't performing well.\n Reduce your video bitrate setting or try a faster connection.\n"
    else if n == 101
    then codes
        "The connection was unexpectedly terminated by the host due to a video capture error.\n Make sure no DRM-protected content is playing on the host.\n"
    else if n == 102
    then codes
        "The connection was terminated by the host due to DRM-protected content.\n Close any DRM-protected content on the host and try again.\n"
    else codes "Connection terminated with error: " ++ (print_int (negsuc n) ++ 10 ∷ [])

abbrev pub is_graceful : ℤ → Bool
is_graceful (pos n) = n == 0
is_graceful (negsuc n) = false

unfoldable pub connection_terminated : ℤ → Session → Session
unfolding message_of
connection_terminated code s = record s {
  is_error = if is_graceful code then false else true;
  message = message_of code;
  mode = stop_stream;
}

-- What `wii_input_update` does for a short and for a long press of the home button.
unfoldable pub home_back : Session → Session
home_back s = record s { mode = stop_stream }

unfoldable pub home_quit : Session → Session
home_quit s = record s { running = false }

-- start_input_thread(), and state = STATE_STREAMING
unfoldable pub start_input : Session → Session
start_input s = record s { place = listening }

unfoldable pub start_drawing : Session → Session
start_drawing s = record s { place = testing; mode = streaming }

abbrev pub is_streaming : Mode → Bool
is_streaming streaming = true
is_streaming invalid = false
is_streaming stop_stream = false

-- wii_proc_running() && state == STATE_STREAMING
unfoldable pub test : Session → Session
test s =
    if s.running && is_streaming s.mode
    then record s { place = drawing }
    else record s { place = stopping }

-- wii_stream_draw(), which returns to the test.
unfoldable pub draw : Session → Session
draw s = record s { place = testing; drawn = s.drawn + 1 }

abbrev pub is_in_loop : Place → Bool
is_in_loop testing = true
is_in_loop drawing = true
is_in_loop connected = false
is_in_loop listening = false
is_in_loop stopping = false
is_in_loop ended = false

abbrev pub reads_buttons : Place → Bool
reads_buttons listening = true
reads_buttons stopping = true
reads_buttons p = is_in_loop p

-- What is behind the loop: the threads are stopped.
unfoldable pub finish : Session → Session
finish s = record s { place = ended; mode = invalid }

-- The steps of the three threads, each when it can be: the connection ends by itself only while there is
-- one, and buttons are read while the input thread runs. Both may come between a test of the loop and the
-- call of `wii_stream_draw` behind it.
pub data Step (s : Session) : Session → Type 0 where
  listens : s.place ≡ connected → Step s (start_input s)
  begins : s.place ≡ listening → Step s (start_drawing s)
  tests : s.place ≡ testing → Step s (test s)
  draws : s.place ≡ drawing → Step s (draw s)
  finishes : s.place ≡ stopping → Step s (finish s)
  terminates : (code : ℤ) → ¬ (s.place ≡ ended) → Step s (connection_terminated code s)
  backs : reads_buttons s.place ≡ true → Step s (home_back s)
  quits : reads_buttons s.place ≡ true → Step s (home_quit s)

pub data Reach (s : Session) : Session → Type 0 where
  here : Reach s s
  next : {t u : Session} → Reach s t → Step t u → Reach s u
