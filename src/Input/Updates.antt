-- ===== src/Input/Updates.antt =====
-- Streams of updates, and the range of the nunchuk's stick.
use moonlight_wii.Prelude.{
  ℕ, ◌+◌, ◌≤◌, ◌<◌, ◌≡◌, refl, ap, ◌∙◌, Bool, true, some, List, [], ◌∷◌, arith, length, suc,
}
use moonlight_wii.Prelude.Int.{pos_part, neg_part, ◌*ℤ◌}
use moonlight_wii.Input.{Action, nothing, back, quit, Home, home_poll, keep, polls}
use moonlight_wii.Input.Controller.{
  Wiimote, ControllerEvent, Update, no_wiimote, stop_running, stop_stream, sent, acted, stick,
  wii_input_update,
}

-- The updates of the input thread, one scan after the other.
unfoldable pub updates : List (ℕ × Wiimote) → Home → List Update
updates [] h = []
updates ((now, w) ∷ scans) h =
    let r = wii_input_update true now (some w) h in r.0 ∷ updates scans r.1

-- What of them is no event for the host.
abbrev pub asked : List Update → List Action
asked [] = []
asked (stop_running ∷ us) = quit ∷ asked us
asked (stop_stream ∷ us) = back ∷ asked us
asked (sent e ∷ us) = asked us
asked (no_wiimote ∷ us) = asked us

abbrev pub events : List Update → List ControllerEvent
events [] = []
events (sent e ∷ us) = e ∷ events us
events (stop_running ∷ us) = events us
events (stop_stream ∷ us) = events us
events (no_wiimote ∷ us) = events us

abbrev pub home_levels : List (ℕ × Wiimote) → List (Bool × ℕ)
home_levels [] = []
home_levels ((now, w) ∷ scans) = (w.level.home, now) ∷ home_levels scans

asked_acted :
    (action : Action) (w : Wiimote) (us : List Update)
    → asked (acted action w ∷ us) ≡ keep action (asked us)
asked_acted nothing w us = refl
asked_acted back w us = refl
asked_acted quit w us = refl

one_more :
    (action : Action) (w : Wiimote) (us : List Update) (n : ℕ)
    → length (events us) + length (asked us) ≡ n
    → length (events (acted action w ∷ us)) + length (asked (acted action w ∷ us)) ≡ suc n
one_more nothing w us n e = omega arith
one_more back w us n e = omega arith
one_more quit w us n e = omega arith

-- While a Wiimote is there, the updates ask to stop the program and to leave the stream exactly as the polls
-- of its home button say, however the events for the host lie between.
pub updates-polls :
    (scans : List (ℕ × Wiimote)) (h : Home) → asked (updates scans h) ≡ polls (home_levels scans) h
unfolding updates polls wii_input_update
updates-polls [] h = refl
updates-polls ((now, w) ∷ scans) h =
    let polled = home_poll w.level.home now h in
    asked_acted polled.0 w (updates scans polled.1)
    ∙ ap (keep polled.0) (updates-polls scans polled.1)

-- Every scan leads to one thing: an event for the host, or what the home button asks for.
pub length-updates :
    (scans : List (ℕ × Wiimote)) (h : Home)
    → length (events (updates scans h)) + length (asked (updates scans h)) ≡ length scans
unfolding updates wii_input_update
length-updates [] h = refl
length-updates ((now, w) ∷ scans) h =
    let polled = home_poll w.level.home now h in
    one_more polled.0 w (updates scans polled.1) (length scans) (length-updates scans polled.1)

-- The stick of a nunchuk, whose positions are bytes, gives at most 510 of the 32767 that a stick can have.
pub stick-le :
    (position center : ℕ)
    → position < 256
    → center < 256
    → (pos_part (stick position center) ≤ 510) × (neg_part (stick position center) ≤ 510)
unfolding stick ◌*ℤ◌
stick-le position center hp hc = ground arith
