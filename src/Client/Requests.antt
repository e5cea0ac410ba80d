-- ===== src/Client/Requests.antt =====
-- libgamestream/client.c: `gs_unpair`, `gs_applist` and `gs_quit_app`, which make one request each.
pub mod Laws
use moonlight_wii.Prelude.{true, false, not, Option, none, some, List, if◌then◌else◌}
use moonlight_wii.Prelude.Int.{ℤ, pos}
use moonlight_wii.Prelude.Text.{codes, str_eq}
use moonlight_wii.Errors.{gs_ok, gs_failed, gs_invalid, gs_error, gs_io_error, is_ok, is_error}
use moonlight_wii.Xml.{Document, xml_search, xml_status}
use moonlight_wii.Xml.Lists.{App, xml_applist}
use moonlight_wii.Client.{Server, Client, url_for, http_request}

-- A call's return value, and the state that it leaves.
pub record Answer : Type 0 where
  pub code : ℤ
  pub server : Server
  pub client : Client

unfoldable pub gs_unpair : Server → Client → Answer
gs_unpair s c =
    let url = url_for 4096 false s.address (codes "unpair") none c in
    let ((code, d), c') = http_request url c in
    if not (is_ok code)
    then record { code = code; server = s; client = c' }
    else if is_error (xml_status d)
    then record { code = gs_error; server = s; client = c' }
    else record { code = gs_ok; server = record s { paired = false }; client = c' }

-- The list is stored in `*app_list` where the call gets as far as that.
unfoldable pub gs_applist : Server → Client → (ℤ × Option (List App)) × Client
gs_applist s c =
    let url = url_for 4096 true s.address (codes "applist") none c in
    let ((code, d), c') = http_request url c in
    if not (is_ok code)
    then ((gs_io_error, none), c')
    else if is_error (xml_status d)
    then ((gs_error, none), c')
    else let r = xml_applist d in
      if is_ok r.status then ((gs_ok, r.list), c') else ((gs_invalid, none), c')

-- `ret = xml_status(...) != GS_OK` makes `ret` the value of a comparison, 1 where the status is bad.
unfoldable pub quit_reply : Document → ℤ
quit_reply d =
    if not (is_ok (xml_status d))
    then pos 1
    else let r = xml_search d (codes "cancel") in
      if is_ok r.0
      then elim r.1 [
        | none ↦ gs_ok
        | some text ↦ if str_eq text (codes "0") then gs_failed else gs_ok
      ]
      else r.0

unfoldable pub gs_quit_app : Server → Client → Answer
gs_quit_app s c =
    let url = url_for 4096 true s.address (codes "cancel") none c in
    let ((code, d), c') = http_request url c in
    if not (is_ok code)
    then record { code = code; server = s; client = c' }
    else let e = quit_reply d in
      record {
        code = e;
        server = if is_ok e then record s { current_game = pos 0 } else s;
        client = c';
      }
