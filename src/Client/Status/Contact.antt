-- ===== src/Client/Status/Contact.antt =====
-- How `gs_get_status` contacts the host, and the versions that it lets through.
use moonlight_wii.Prelude.{◌≡◌, ◌⊎◌, Bool, true, false, none, ◌∷◌, if◌then◌else◌, arith}
use moonlight_wii.Prelude.Int.{pos, ◌≤ℤ◌}
use moonlight_wii.Prelude.Text.{Bytes, codes}
use moonlight_wii.Errors.{is_ok}
use moonlight_wii.Client.{Server, Client, url_for, http_request}
use moonlight_wii.Client.Status.{status_round, status_loop, load_server_status, gs_get_status}

-- `gs_get_status` returns GS_OK only for a host of version 3 to 7, or where the configuration lets
-- every version through.
pub gs_get_status-version :
    (address : Bytes) (unsupported : Bool) (s : Server) (c : Client)
    → let r = gs_get_status address unsupported s c in
      is_ok r.code ≡ true
      → (r.server.unsupported ≡ true)
        ⊎ ((pos 3 ≤ℤ r.server.major_version) × (r.server.major_version ≤ℤ pos 7))
unfolding gs_get_status load_server_status
gs_get_status-version address unsupported s c h = ground arith

-- One round sends one request, over the scheme that it is told.
sent-status_round :
    (secure : Bool) (s : Server) (c : Client)
    → (status_round secure s c).client.sent
      ≡ url_for 4096 secure s.address (codes "serverinfo") none c ∷ c.sent
unfolding status_round http_request
sent-status_round secure s c = ground arith

-- `gs_get_status` asks over HTTPS, and a second time, over HTTP, exactly when the first round fails.
pub sent-status_loop :
    (s : Server) (c : Client)
    → let first = status_round true s c in
      let https = url_for 4096 true s.address (codes "serverinfo") none c in
      let http = url_for 4096 false first.server.address (codes "serverinfo") none first.client in
      (status_loop s c).client.sent
      ≡ (if is_ok first.code then https ∷ c.sent else http ∷ https ∷ c.sent)
unfolding status_loop
sent-status_loop s c = ground (
  arith,
  sent-status_round true s c,
  sent-status_round false (status_round true s c).server (status_round true s c).client,
)
