-- ===== src/Session/Messages.antt =====
-- src/_connection.c: the message that is left when a connection ends.
use moonlight_wii.Prelude.{
  ◌<◌, ◌≡◌, ◌↔◌, true, false, [], ◌∷◌, ◌++◌, length, length-append, if◌then◌else◌, arith,
}
use moonlight_wii.Prelude.Int.{ℤ, pos, negsuc}
use moonlight_wii.Prelude.Decimal.{print_int}
use moonlight_wii.Prelude.Text.{codes}
use moonlight_wii.Config.Numbers.{FitsInt, length-print_int}
use moonlight_wii.Session.{Session, message_of, is_graceful, connection_terminated}

default_fits :
    (z : ℤ)
    → FitsInt z
    → length (codes "Connection terminated with error: " ++ (print_int z ++ 10 ∷ [])) < 1024
default_fits z h = omega (arith, length-append (print_int z) (10 ∷ []), length-print_int z h)

message_of-fits : (code : ℤ) → FitsInt code → length (message_of code) < 1024
unfolding message_of
message_of-fits (pos n) h = ground (arith, default_fits (pos n) h)
message_of-fits (negsuc n) h = ground (arith, default_fits (negsuc n) h)

graceful_iff : (code : ℤ) → ((if is_graceful code then false else true) ≡ false) ↔ (code ≡ pos 0)
graceful_iff (pos n) = (λ e. ground arith, λ e. ground arith)
graceful_iff (negsuc n) = (λ e. cc, λ e. ground arith)

-- For every error code of type `int` the text of `connection_terminated` fits `message_buffer`, and it is
-- shown as an error exactly when the code is not 0.
pub connection_terminated_lem :
    (code : ℤ) (s : Session)
    → FitsInt code
    → (length (connection_terminated code s).message < 1024)
      × (((connection_terminated code s).is_error ≡ false) ↔ (code ≡ pos 0))
unfolding connection_terminated
connection_terminated_lem code s h = (message_of-fits code h, graceful_iff code)
