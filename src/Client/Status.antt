-- ===== src/Client/Status.antt =====
-- libgamestream/client.c: `load_server_status` and `gs_get_status`.
pub mod Reads
pub mod Contact
use moonlight_wii.Prelude.{
  ◌/◌, ◌%◌, Bool, true, false, ◌||◌, ◌&&◌, not, none, some, [], if◌then◌else◌, ◌==◌,
}
use moonlight_wii.Prelude.Int.{ℤ, pos, negsuc, ltb_ℤ, is_zero}
use moonlight_wii.Prelude.Text.{Bytes, codes, str_eq, contains}
use moonlight_wii.Prelude.Decimal.{atoi}
use moonlight_wii.Errors.{
  gs_invalid, gs_error, gs_io_error, gs_unsupported_version, is_ok, is_error,
}
use moonlight_wii.Xml.{Document, xml_search, xml_status}
use moonlight_wii.Xml.Lists.{xml_modelist}
use moonlight_wii.Client.{
  Server, Client, found, Outcome, Exec, ◌>>=◌, ◌>>◌, update, fail_if, code_of, url_for,
  http_request,
}

-- An `xml_search` whose failure ends the body with `ret` still GS_INVALID.
unfoldable pub search_or_end : Document → Bytes → Exec Server Bytes
search_or_end d node s = elim (found (xml_search d node)) [
  | none ↦ (Outcome.raised gs_invalid, s)
  | some text ↦ (Outcome.done text, s)
]

-- The host's name; without one its address stands in.
unfoldable pub hostname_of : Document → Server → Bytes
hostname_of d s = elim (found (xml_search d (codes "hostname"))) [
  | none ↦ s.address
  | some text ↦ text
]

unfoldable pub modes_or_end : Document → Exec Server (Unit {0})
modes_or_end d s = elim (found (xml_modelist d)) [
  | none ↦ (Outcome.raised gs_invalid, s)
  | some modes ↦ (Outcome.done tt, record s { modes = modes })
]

-- !strlen(text)
abbrev pub is_empty : Bytes → Bool
is_empty [] = true
is_empty _ = false

-- code & 0x200, of an `int` in two's complement
unfoldable pub has_hdr_bit : ℤ → Bool
has_hdr_bit (pos n) = n / 512 % 2 == 1
has_hdr_bit (negsuc n) = n / 512 % 2 == 0

-- What the last lines of the body store, from the four texts.
unfoldable pub store_status : Bytes → Bytes → Bytes → Bytes → Bytes → Server → Server
store_status current paired version state codec s = record s {
  paired = str_eq paired (codes "1");
  current_game = if contains state (codes "_SERVER_BUSY") then atoi current else pos 0;
  supports_4k = not (is_zero (atoi codec));
  supports_hdr = has_hdr_bit (atoi codec);
  codec_mode_support = atoi codec;
  major_version = atoi version;
  is_gfe = contains state (codes "MJOLNIR");
}

-- The body of the loop, from `xml_status` on.
unfoldable pub read_status : Document → Exec Server (Unit {0})
read_status d = do
  fail_if (is_error (xml_status d)) gs_error
  uuid ← search_or_end d (codes "uniqueid")
  update (λ s. record s { uuid = some uuid })
  mac ← search_or_end d (codes "mac")
  update (λ s. record s { mac = some mac })
  update (λ s. record s { hostname = some (hostname_of d s) })
  current ← search_or_end d (codes "currentgame")
  paired ← search_or_end d (codes "PairStatus")
  version ← search_or_end d (codes "appversion")
  update (λ s. record s { app_version = some version })
  state ← search_or_end d (codes "state")
  codec ← search_or_end d (codes "ServerCodecModeSupport")
  gpu ← search_or_end d (codes "gputype")
  update (λ s. record s { gpu_type = some gpu })
  gs ← search_or_end d (codes "GsVersion")
  update (λ s. record s { gs_version = some gs })
  gfe ← search_or_end d (codes "GfeVersion")
  update (λ s. record s { gfe_version = some gfe })
  modes_or_end d
  fail_if (is_empty current || is_empty paired || is_empty version || is_empty state) gs_invalid
  update (store_status current paired version state codec)

-- A call's `ret`, and the state that it leaves.
pub record Status : Type 0 where
  pub code : ℤ
  pub server : Server
  pub client : Client

-- One round of the loop, over HTTPS or over HTTP.
unfoldable pub status_round : Bool → Server → Client → Status
status_round secure s c =
    let url = url_for 4096 secure s.address (codes "serverinfo") none c in
    let ((code, d), c') = http_request url c in
    let (o, s') = read_status d s in
    if is_ok code
    then record { code = code_of o; server = s'; client = c' }
    else record { code = gs_io_error; server = s; client = c' }

-- The loop: HTTPS first, and once more over HTTP where that fails.
unfoldable pub status_loop : Server → Client → Status
status_loop s c =
    let first = status_round true s c in
    if is_ok first.code then first else status_round false first.server first.client

abbrev pub max_supported_gfe_version : ℤ
max_supported_gfe_version = pos 7

abbrev pub min_supported_gfe_version : ℤ
min_supported_gfe_version = pos 3

unfoldable pub load_server_status : Server → Client → Status
load_server_status s c =
    let r = status_loop s c in
    if is_ok r.code && not r.server.unsupported
    then if ltb_ℤ max_supported_gfe_version r.server.major_version
        || ltb_ℤ r.server.major_version min_supported_gfe_version
      then record r { code = gs_unsupported_version }
      else r
    else r

-- `LiInitializeServerInformation` clears what belongs to `SERVER_INFORMATION`.
unfoldable pub gs_get_status : Bytes → Bool → Server → Client → Status
gs_get_status address unsupported s c =
    load_server_status
      (record s {
        address = address;
        app_version = none;
        gfe_version = none;
        rtsp_session_url = none;
        codec_mode_support = pos 0;
        unsupported = unsupported;
      })
      c
