-- ===== src/Session/Tests.antt =====
-- src/main.c and src/_connection.c: ends of a stream.
use moonlight_wii.Prelude.{◌+◌, ◌≡◌, ◌<◌, ◌↔◌, refl, true, false, [], length, arith}
use moonlight_wii.Prelude.Int.{pos, negsuc}
use moonlight_wii.Prelude.Decimal.{print_int}
use moonlight_wii.Prelude.Text.{codes}
use moonlight_wii.Config.Numbers.{FitsInt}
use moonlight_wii.Session.{
  invalid, stop_stream, connected, drawing, Session, message_of, connection_terminated, start_input,
  start_drawing,
}
use moonlight_wii.Session.Messages.{connection_terminated_lem}
use moonlight_wii.Session.Ends.{turns_of, GoesOn, termination_lost}

abbrev made : Session
made = record {
  mode = invalid;
  running = true;
  place = connected;
  is_error = false;
  message = [];
  drawn = 0;
}

frame_conversion-text : message_of (negsuc 103) ≡ codes "Connection terminated with error: -104\n"
unfolding message_of print_int
frame_conversion-text = refl

connection_terminated_lem_example :
    (length (connection_terminated (negsuc 103) made).message < 1024)
    × (((connection_terminated (negsuc 103) made).is_error ≡ false) ↔ (negsuc 103 ≡ pos 0))
unfolding FitsInt
connection_terminated_lem_example = connection_terminated_lem (negsuc 103) made (omega arith)

-- The connection ends between the test and the draw.
abbrev left : Session
left = record made { mode = stop_stream; place = drawing; drawn = 7 }

termination_lost_example :
    GoesOn made
      (0 + 1000)
      (turns_of 1000 (start_drawing (start_input (connection_terminated (negsuc 99) made))))
termination_lost_example = termination_lost (negsuc 99) 1000 made refl refl
