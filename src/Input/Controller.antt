-- ===== src/Input/Controller.antt =====
-- src/wii/input.c: what a scan of the Wiimote becomes, for the host while streaming (`wii_input_update`)
-- and for the menus (`wii_input_buttons_triggered`). A scan is what WPAD gives; the buttons of a mask are
-- the fields of a record.
use moonlight_wii.Prelude.{ℕ, Bool, false, ◌||◌, Option, none, some, bit_or, if◌then◌else◌}
use moonlight_wii.Prelude.Int.{ℤ, pos, sub_ℕ, ◌*ℤ◌}
use moonlight_wii.Input.{Action, nothing, back, quit, Home, home_poll}

pub record Buttons : Type 0 where
  pub a : Bool
  pub b : Bool
  pub one : Bool
  pub two : Bool
  pub up : Bool
  pub down : Bool
  pub left : Bool
  pub right : Bool
  pub plus : Bool
  pub minus : Bool
  pub home : Bool

-- The expansion: buttons held and pressed, and the stick's position and centre, of one byte each.
pub record Nunchuk : Type 0 where
  pub c_held : Bool
  pub z_held : Bool
  pub c_pressed : Bool
  pub z_pressed : Bool
  pub x : ℕ
  pub y : ℕ
  pub center_x : ℕ
  pub center_y : ℕ

-- `level` is btns_l | btns_h and `pressed` is btns_d; none for no nunchuk.
pub record Wiimote : Type 0 where
  pub level : Buttons
  pub pressed : Buttons
  pub nunchuk : Option Nunchuk

-- What `LiSendMultiControllerEvent` is given for the one controller.
pub record ControllerEvent : Type 0 where
  pub button_flags : ℕ
  pub right_trigger : ℕ
  pub stick_x : ℤ
  pub stick_y : ℤ

-- CHECKBTN; the flags are those of Limelight.h.
abbrev pub check_btn : Bool → ℕ → ℕ → ℕ
check_btn down flag flags = if down then bit_or flags flag else flags

unfoldable pub wiimote_flags : Buttons → ℕ
wiimote_flags s = check_btn s.minus 0x20 (
    check_btn s.plus 0x10 (
      check_btn s.right 0x8 (
        check_btn s.left 0x4 (
          check_btn s.down 0x2 (
            check_btn s.up 0x1 (
              check_btn s.two 0x200
                (check_btn s.one 0x100 (check_btn s.b 0x2000 (check_btn s.a 0x1000 0)))))))))

-- (int16_t) ((int16_t) pos - (int16_t) center) * 2, which stays far inside 16 bits.
unfoldable pub stick : ℕ → ℕ → ℤ
stick position center = sub_ℕ position center *ℤ pos 2

unfoldable pub controller_event : ℕ → Option Nunchuk → ControllerEvent
unfolding stick
controller_event flags none = record {
  button_flags = flags;
  right_trigger = 0;
  stick_x = pos 0;
  stick_y = pos 0;
}
controller_event flags (some n) = record {
  button_flags = check_btn n.z_held 0x4000 (check_btn n.c_held 0x8000 flags);
  right_trigger = if n.z_held then 255 else 0;
  stick_x = stick n.x n.center_x;
  stick_y = stick n.y n.center_y;
}

unfoldable pub send_controller_event : Wiimote → ControllerEvent
unfolding wiimote_flags controller_event
send_controller_event w = controller_event (wiimote_flags w.level) w.nunchuk

-- What an update does: nothing without a Wiimote, `wii_proc_stop_running`, STATE_STOP_STREAM, or an event.
pub data Update : Type 0 where
  no_wiimote : Update
  stop_running : Update
  stop_stream : Update
  sent : ControllerEvent → Update

abbrev pub acted : Action → Wiimote → Update
acted quit w = stop_running
acted back w = stop_stream
acted nothing w = sent (send_controller_event w)

-- Whether the home button counts, the time, and the scan: none where it has an error or no data.
unfoldable pub wii_input_update : Bool → ℕ → Option Wiimote → Home → Update × Home
unfolding home_poll send_controller_event
wii_input_update home_enabled now none h = (no_wiimote, h)
wii_input_update home_enabled now (some w) h =
    let polled = home_poll w.level.home now h in
    if home_enabled then (acted polled.0 w, polled.1) else (sent (send_controller_event w), h)

unfoldable pub wii_input_num_controllers : Option Wiimote → ℕ
wii_input_num_controllers none = 0
wii_input_num_controllers (some w) = 1

abbrev pub no_buttons : Buttons
no_buttons = record {
  a = false;
  b = false;
  one = false;
  two = false;
  up = false;
  down = false;
  left = false;
  right = false;
  plus = false;
  minus = false;
  home = false;
}

-- The buttons of the nunchuk count as 1 and 2.
unfoldable pub with_nunchuk : Buttons → Option Nunchuk → Buttons
with_nunchuk s none = s
with_nunchuk s (some n) = record s { one = s.one || n.c_pressed; two = s.two || n.z_pressed }

-- The buttons, and what the home button asks for: quit stops the program, back wants the main menu.
unfoldable pub wii_input_buttons_triggered :
    Bool → ℕ → Option Wiimote → Home → Buttons × Action × Home
unfolding home_poll with_nunchuk
wii_input_buttons_triggered home_enabled now none h = (no_buttons, nothing, h)
wii_input_buttons_triggered home_enabled now (some w) h =
    let btns = with_nunchuk w.pressed w.nunchuk in
    let polled = home_poll w.level.home now h in
    if home_enabled then (btns, polled.0, polled.1) else (btns, nothing, h)
