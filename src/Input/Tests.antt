-- ===== src/Input/Tests.antt =====
-- src/wii/input.c: runs.
use moonlight_wii.Prelude.{ℕ, ◌≡◌, Bool, true, some, List, refl, false, [], ◌∷◌}
use moonlight_wii.Prelude.Int.{pos, negsuc, ◌*ℤ◌}
use moonlight_wii.Input.{back, Home}
use moonlight_wii.Input.Controller.{Wiimote, no_buttons, send_controller_event, wii_input_update}
use moonlight_wii.Input.Updates.{asked, updates}

abbrev pressing : Bool → Wiimote
pressing down = record {
  level = record no_buttons { a = true; home = down };
  pressed = no_buttons;
  nunchuk = some (record {
    c_held = true;
    z_held = false;
    c_pressed = false;
    z_pressed = false;
    x = 228;
    y = 30;
    center_x = 128;
    center_y = 130;
  });
}

abbrev released : Home
released = record { down_micros = 0; held = false; long_fired = false }

-- A short press between two events.
abbrev scans : List (ℕ × Wiimote)
scans = (5, pressing false) ∷ (10, pressing true) ∷ (20, pressing false) ∷ []

asked_once : asked (updates scans released) ≡ back ∷ []
unfolding updates wii_input_update
asked_once = refl

event_sent :
    send_controller_event (pressing false)
    ≡ record { button_flags = 0x9000; right_trigger = 0; stick_x = pos 200; stick_y = negsuc 199 }
unfolding send_controller_event ◌*ℤ◌
event_sent = refl
