-- ===== src/Session/Ends.antt =====
-- src/main.c: whether the drawing loop sees that the stream is to end.
use moonlight_wii.Prelude.{ℕ, zero, suc, ◌+◌, ◌≡◌, refl, Bool, true, false, ◌&&◌, arith}
use native.Mathlib.Nat.{add-zero}
use moonlight_wii.Prelude.Int.{ℤ}
use moonlight_wii.Session.{
  Place, connected, listening, testing, drawing, stopping, ended, Session, connection_terminated,
  start_input, start_drawing, is_streaming, test, draw, listens, begins, tests, draws, terminates,
  Reach, here, next,
}

abbrev has_begun : Place → Bool
has_begun connected = false
has_begun listening = false
has_begun testing = true
has_begun drawing = true
has_begun stopping = true
has_begun ended = true

-- The draw that is under way.
abbrev pub under_way : Place → ℕ
under_way drawing = 1
under_way _ = 0

-- The loop has begun, so many draws were begun, and its condition does not hold.
record IsOver (frames : ℕ) (s : Session) : Type 0 where
  begun : has_begun s.place ≡ true
  over : s.running && is_streaming s.mode ≡ false
  drawn : s.drawn + under_way s.place ≡ frames

-- So many turns of the loop: the test and the draw.
unfoldable pub turns_of : ℕ → Session → Session
turns_of zero s = s
turns_of (suc n) s = draw (test (turns_of n s))

-- The loop goes on, and has drawn so many frames.
pub record GoesOn (s : Session) (frames : ℕ) (t : Session) : Type 0 where
  pub reached : Reach s t
  pub in_loop : t.place ≡ testing
  pub on : t.running && is_streaming t.mode ≡ true
  pub drawn : t.drawn ≡ frames

turn-GoesOn :
    (s t : Session) (frames : ℕ) → GoesOn s frames t → GoesOn s (frames + 1) (draw (test t))
unfolding test draw
turn-GoesOn s t frames g = record {
  reached = next (next g.reached (tests g.in_loop)) (draws (rw g.on refl));
  in_loop = ground arith;
  on = ground arith;
  drawn = ground arith;
}

turns_of-GoesOn :
    (n : ℕ) (s t : Session) (frames : ℕ) → GoesOn s frames t → GoesOn s (frames + n) (turns_of n t)
unfolding turns_of
turns_of-GoesOn zero s t frames g = rw add-zero g
turns_of-GoesOn (suc n) s t frames g =
    let more = turn-GoesOn s (turns_of n t) (frames + n) (turns_of-GoesOn n s t frames g) in
    let e : frames + suc n ≡ frames + n + 1 = omega arith in rw e more

-- A connection that ends when LiStartConnection has made it, and before `do_stream` sets `state`, is not
-- noticed: the loop begins, and however many turns it makes, it draws and goes on.
pub termination_lost :
    (code : ℤ) (n : ℕ) (s : Session)
    → s.place ≡ connected
    → s.running ≡ true
    → GoesOn s
        (s.drawn + n)
        (turns_of n (start_drawing (start_input (connection_terminated code s))))
unfolding start_drawing start_input connection_terminated
termination_lost code n s e h =
    turns_of-GoesOn n s (start_drawing (start_input (connection_terminated code s))) s.drawn
      (record {
        reached =
            next (next (next here (terminates code (λ x. ground arith))) (listens e)) (begins refl);
        in_loop = refl;
        on = rw h refl;
        drawn = refl;
      })
