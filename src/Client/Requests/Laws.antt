-- ===== src/Client/Requests/Laws.antt =====
-- What one request of the client changes.
use moonlight_wii.Prelude.{◌≡◌, refl, false, List, ◌∷◌, if◌then◌else◌, arith}
use moonlight_wii.Prelude.Int.{ℤ, pos}
use moonlight_wii.Errors.{gs_ok, is_ok}
use moonlight_wii.Xml.{Document, xml_status}
use moonlight_wii.Client.{Server, Client, http_request}
use moonlight_wii.Client.Requests.{gs_unpair, quit_reply, gs_quit_app}

-- Whatever the host answers, `gs_unpair` clears the pairing exactly when it returns GS_OK, and changes
-- nothing else of the server's data.
pub gs_unpair-server :
    (s : Server) (c : Client)
    → let r = gs_unpair s c in r.server ≡ (if is_ok r.code then record s { paired = false } else s)
unfolding gs_unpair
gs_unpair-server s c = ground arith

-- Whatever the host answers, `gs_quit_app` forgets the running application exactly when it returns
-- GS_OK, and changes nothing else of the server's data.
pub gs_quit_app-server :
    (s : Server) (c : Client)
    → let r = gs_quit_app s c in
      r.server ≡ (if is_ok r.code then record s { current_game = pos 0 } else s)
unfolding gs_quit_app
gs_quit_app-server s c = ground arith

quit_reply-bad : (d : Document) → is_ok (xml_status d) ≡ false → quit_reply d ≡ pos 1
unfolding quit_reply
quit_reply-bad d bad = rw bad refl

-- A host that answers the cancel request with a bad status makes `gs_quit_app` return 1, which is no
-- code of errors.h and no negative number, and the application is still taken to run.
pub gs_quit_app-refused :
    (s : Server) (c : Client) (d : Document) (rest : List (ℤ × Document))
    → c.replies ≡ (gs_ok, d) ∷ rest
    → is_ok (xml_status d) ≡ false
    → ((gs_quit_app s c).code ≡ pos 1) × ((gs_quit_app s c).server ≡ s)
unfolding gs_quit_app http_request
gs_quit_app-refused s c d rest h bad = rw (h, quit_reply-bad d bad) (refl, refl)
