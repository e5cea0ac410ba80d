-- ===== src/Client/Launch.antt =====
-- libgamestream/client.c: `gs_start_app`. The random bytes and `LiGetLaunchUrlQueryParameters` come
-- from outside; the entropy source is taken to be seeded.
pub mod Laws
use moonlight_wii.Prelude.{
  ℕ, ◌+◌, ◌-◌, ◌*◌, ◌^◌, Bool, true, false, not, ◌&&◌, ◌||◌, Option, none, some, List, [], ◌∷◌,
  ◌++◌, if◌then◌else◌, ◌==◌, leb, ltb, bit_and, get_or, replicate,
}
use moonlight_wii.Prelude.Int.{ℤ, pos, negsuc, is_zero}
use moonlight_wii.Prelude.Text.{Bytes, codes, str_eq}
use moonlight_wii.Prelude.Decimal.{print_int, print_nat}
use moonlight_wii.Errors.{gs_ok, gs_failed, gs_not_supported_4k, gs_not_supported_mode, is_ok}
use moonlight_wii.Hex.{bytes_to_hex}
use moonlight_wii.Xml.{Document, xml_search_ex, xml_status}
use moonlight_wii.Xml.Lists.{DisplayMode}
use moonlight_wii.Client.{
  Server, Client, found, fit, url_for, append_param, http_request, gs_set_timeout,
}

-- The fields of `STREAM_CONFIGURATION` that the client and the menus use.
pub record StreamConfig : Type 0 where
  pub width : ℕ
  pub height : ℕ
  pub fps : ℕ
  pub bitrate : ℕ
  pub supported_video_formats : ℕ
  pub surround_info : ℕ
  pub encryption_flags : ℕ
  pub remote_input_aes_key : Bytes
  pub remote_input_aes_iv : Bytes

-- What comes from other libraries: 16 and 4 random bytes, and a piece of the URL.
pub record LaunchInput : Type 0 where
  pub aes_key : Bytes
  pub iv_head : Bytes
  pub launch_query : Bytes

-- The loop over `server->modes`
unfoldable pub correct_mode : List DisplayMode → StreamConfig → Bool
correct_mode [] cfg = false
correct_mode (m ∷ ms) cfg =
    (m.width == cfg.width && m.height == cfg.height && m.refresh == cfg.fps) || correct_mode ms cfg

-- htonl of the first four bytes, which this big-endian machine leaves as they are; "%d" prints it as a
-- signed number.
abbrev pub rikeyid : Bytes → ℤ
rikeyid iv =
    let u =
      get_or iv 0 0 * 2 ^ 24 + get_or iv 1 0 * 2 ^ 16 + get_or iv 2 0 * 2 ^ 8 + get_or iv 3 0 in
    if ltb u (2 ^ 31) then pos u else negsuc (2 ^ 32 - 1 - u)

abbrev pub bool_text : Bool → Bytes
bool_text b = if b then codes "1" else codes "0"

abbrev pub video_format_mask_10bit : ℕ
video_format_mask_10bit = 0x2200

-- The options of a call of `gs_start_app`.
pub record Launch : Type 0 where
  pub app_id : ℤ
  pub is_gfe : Bool
  pub sops : Bool
  pub local_audio : Bool
  pub gamepad_mask : ℕ

abbrev x : Bytes
x = codes "x"

-- Over 60 frames a second the host is given 0.
abbrev pub sent_fps : Bool → ℕ → ℕ
sent_fps is_gfe fps = if is_gfe && ltb 60 fps then 0 else fps

unfoldable pub hdr_params : StreamConfig → Bytes → Bytes
hdr_params cfg url =
    if bit_and cfg.supported_video_formats video_format_mask_10bit == 0
    then url
    else append_param 4096 (codes "clientHdrCapDisplayData") (codes "0x0x0x0x0x0x0x0x0x0x0") (
        append_param 4096 (codes "clientHdrCapMetaDataId") (codes "NV_STATIC_METADATA_TYPE_1") (
          append_param 4096 (codes "clientHdrCapSupportedFlagsInUint32") (codes "0") (
            append_param 4096 (codes "clientHdrCapVersion") (codes "0")
              (append_param 4096 (codes "hdrMode") (codes "1") url))))

-- The parameters that follow "appid", the first one innermost; strlcat keeps 4095 bytes.
unfoldable pub launch_url : StreamConfig → Launch → Bool → Bytes → Bytes → Bytes
launch_url cfg l resume query url =
    let url =
      append_param 4096 (codes "mode")
        (print_nat cfg.width
          ++ x
          ++ print_nat cfg.height
          ++ x
          ++ print_nat (sent_fps l.is_gfe cfg.fps))
        url in
    let url = append_param 4096 (codes "additionalStates") (codes "1") url in
    let url = append_param 4096 (codes "sops") (bool_text l.sops) url in
    let url = append_param 4096 (codes "rikey") (bytes_to_hex cfg.remote_input_aes_key) url in
    let url =
      append_param 4096 (codes "rikeyid") (print_int (rikeyid cfg.remote_input_aes_iv)) url in
    let url = append_param 4096 (codes "surroundAudioInfo") (print_nat cfg.surround_info) url in
    let url =
      if not resume || not l.is_gfe
      then append_param 4096 (codes "gcmap") (print_nat l.gamepad_mask) (
          append_param 4096 (codes "remoteControllersBitmap") (print_nat l.gamepad_mask) (
            append_param 4096 (codes "localAudioPlayMode") (bool_text l.local_audio)
              (hdr_params cfg url)))
      else url in
    fit 4096 (url ++ query)

-- The end of the body: the return value, and the session URL where one is stored.
unfoldable pub launch_reply : Document → ℤ × Option Bytes
launch_reply d =
    if not (is_ok (xml_status d))
    then (pos 1, none)
    else let session = xml_search_ex d (codes "gamesession") true in
      let result = if is_ok session.0 then session else xml_search_ex d (codes "resume") true in
      elim (found result) [
        | none ↦ (result.0, none)
        | some text ↦
            if str_eq text (codes "0")
            then (gs_failed, none)
            else (gs_ok, found (xml_search_ex d (codes "sessionUrl0") true))
      ]

pub record Launched : Type 0 where
  pub code : ℤ
  pub server : Server
  pub config : StreamConfig
  pub client : Client

abbrev pub with_keys : LaunchInput → StreamConfig → StreamConfig
with_keys i cfg = record cfg {
  remote_input_aes_key = i.aes_key;
  remote_input_aes_iv = i.iv_head ++ replicate 12 0;
}

-- The request itself; `current_game` is set as soon as the host has answered.
unfoldable pub request_launch : LaunchInput → Launch → Server → StreamConfig → Client → Launched
request_launch i l s cfg c =
    let resume = is_zero s.current_game in
    let c = gs_set_timeout (if resume then 30 else 120) c in
    let action = if resume then codes "launch" else codes "resume" in
    let url =
      launch_url cfg l resume i.launch_query
        (url_for 4096 true s.address action (some (codes "appid=" ++ print_int l.app_id)) c) in
    let ((code, d), c') = http_request url c in
    if not (is_ok code)
    then record { code = code; server = s; config = cfg; client = c' }
    else let (e, session) = launch_reply d in
      let s' = record s { current_game = l.app_id } in
      record {
        code = e;
        server = elim session [ none ↦ s' | some u ↦ record s' { rtsp_session_url = some u } ];
        config = cfg;
        client = c';
      }

unfoldable pub gs_start_app : LaunchInput → Launch → Server → StreamConfig → Client → Launched
gs_start_app i l s cfg c =
    if not (correct_mode s.modes cfg) && not s.unsupported
    then record { code = gs_not_supported_mode; server = s; config = cfg; client = c }
    else if leb 2160 cfg.height && not s.supports_4k
    then record { code = gs_not_supported_4k; server = s; config = cfg; client = c }
    else request_launch i l s (with_keys i cfg) c
