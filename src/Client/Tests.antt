-- ===== src/Client/Tests.antt =====
-- Runs of the client against concrete hosts, and the theorems there.
use moonlight_wii.Prelude.{ℕ, ◌≡◌, refl, true, false, none, some, List, [], ◌∷◌, length}
use moonlight_wii.Prelude.Int.{ℤ, pos}
use moonlight_wii.Prelude.Text.{Bytes, codes, str_eq, contains}
use moonlight_wii.Errors.{gs_ok, gs_io_error, is_ok, is_error}
use moonlight_wii.Xml.{Document, xml_status, xml_search, xml_search_ex, search_events, search_event}
use moonlight_wii.Xml.Lists.{DisplayMode, xml_modelist}
use moonlight_wii.Xml.Search.{Forest, nil, element, text, flatten, text_within}
use moonlight_wii.Client.{Server, Client, construct_url, url_for, http_request, gs_set_timeout}
use moonlight_wii.Client.Status.{
  Status, is_empty, status_round, status_loop, load_server_status, gs_get_status, read_status,
  search_or_end, hostname_of, modes_or_end, store_status, has_hdr_bit,
}
use moonlight_wii.Client.Status.Reads.{field}
use moonlight_wii.Client.Launch.{
  StreamConfig, LaunchInput, Launch, correct_mode, launch_reply, request_launch, gs_start_app,
}
use moonlight_wii.Client.Pair.{
  Crypto, gs_pair, pair_body, stage_cert, first_reply, read_cert, stage_challenge, stage_reply,
  stage_response, check_server, stage_secret, pair_cleanup, pair_request, search_or_code,
  search_or_invalid,
}
use moonlight_wii.Hex.{hex_to_bytes, decode_pairs, pair_value, out_of_table}
use moonlight_wii.Client.Pair.Laws.{gs_pair-Authentic, Authentic}

abbrev pub hd : DisplayMode
hd = record { width = 1280; height = 720; refresh = 60 }

abbrev pub host : Server
host = record {
  address = codes "10.0.0.2";
  uuid = none;
  mac = none;
  hostname = none;
  gpu_type = none;
  gs_version = none;
  gfe_version = none;
  app_version = none;
  rtsp_session_url = none;
  codec_mode_support = pos 0;
  paired = false;
  supports_4k = false;
  supports_hdr = false;
  unsupported = false;
  is_gfe = false;
  current_game = pos 0;
  major_version = pos 7;
  modes = hd ∷ [];
}

abbrev pub meeting : List (ℤ × Document) → Client
meeting replies = record {
  unique_id = codes "0123456789ABCDEF";
  cert_hex = codes "2d2d";
  timeout = 5;
  uuids = λ n. codes "00000000-0000-4000-8000-000000000000";
  drawn = 0;
  replies = replies;
  sent = [];
}

abbrev pub root : Bytes → Forest → Forest
root status kids = element (codes "root") ((codes "status_code", status) ∷ []) kids nil

abbrev pub leaf : Bytes → Bytes → Forest → Forest
leaf name value rest = element name [] (text value nil) rest

abbrev info : Forest
info = root (codes "200") (
    leaf (codes "hostname") (codes "pc") (
      leaf (codes "appversion") (codes "7.1.431.0") (
        leaf (codes "uniqueid") (codes "17") (
          leaf (codes "PairStatus") (codes "1") (
            leaf (codes "currentgame") (codes "4")
              (leaf (codes "state") (codes "SUNSHINE_SERVER_FREE") nil))))))

abbrev pub refused : Document
refused = some (flatten (root (codes "401") nil))

abbrev declined : Document
declined = some (flatten (root (codes "200") (leaf (codes "paired") (codes "0") nil)))

-- Over HTTPS the host is out of reach, over HTTP it answers; it is idle, so no application runs.
abbrev retried : Status
retried =
    gs_get_status (codes "10.0.0.2") false host
      (meeting ((gs_io_error, none) ∷ (gs_ok, some (flatten info)) ∷ []))

retried-result :
    (is_ok retried.code ≡ true)
    × (retried.server.paired ≡ true)
    × (retried.server.current_game ≡ pos 0)
    × (◌≡◌ {A = ℕ} (length retried.client.sent) 2)
unfolding gs_get_status load_server_status status_loop status_round read_status search_or_end
    hostname_of modes_or_end store_status has_hdr_bit url_for construct_url http_request xml_status
    xml_search search_events flatten contains xml_modelist str_eq search_event
retried-result = (refl, refl, refl, refl)

abbrev closed_port : Client
closed_port = meeting ((gs_io_error, none) ∷ (gs_ok, some (flatten info)) ∷ [])

info-status : is_error (xml_status (some (flatten info))) ≡ false
unfolding xml_status flatten str_eq
info-status = refl

info-modes : xml_modelist (some (flatten info)) ≡ (gs_ok, some [])
unfolding xml_modelist flatten str_eq
info-modes = refl

info-fields :
    (is_empty (field info (codes "currentgame")) ≡ false)
    × (is_empty (field info (codes "PairStatus")) ≡ false)
    × (is_empty (field info (codes "appversion")) ≡ false)
    × (is_empty (field info (codes "state")) ≡ false)
unfolding text_within str_eq
info-fields = (refl, refl, refl, refl)

abbrev pub asked : Client
asked = meeting ((gs_ok, refused) ∷ [])

pub refused-status : is_ok (xml_status refused) ≡ false
unfolding xml_status flatten str_eq
refused-status = refl

abbrev pub stream : StreamConfig
stream = record {
  width = 1280;
  height = 720;
  fps = 60;
  bitrate = 5000;
  supported_video_formats = 1;
  surround_info = 196610;
  encryption_flags = 0;
  remote_input_aes_key = [];
  remote_input_aes_iv = [];
}

abbrev pub keys : LaunchInput
keys = record { aes_key = 1 ∷ 2 ∷ []; iv_head = 0 ∷ 0 ∷ 0 ∷ 9 ∷ []; launch_query = [] }

abbrev pub game : Launch
game = record {
  app_id = pos 12;
  is_gfe = false;
  sops = true;
  local_audio = false;
  gamepad_mask = 1;
}

abbrev launched : Document
launched = some (flatten (root (codes "200") (leaf (codes "gamesession") (codes "1") nil)))

launched-ok :
    is_ok (gs_start_app keys game host stream (meeting ((gs_ok, launched) ∷ []))).code ≡ true
unfolding gs_start_app request_launch launch_reply correct_mode http_request xml_status
    xml_search_ex search_events search_event flatten str_eq gs_set_timeout
launched-ok = refl

-- Cryptography that changes nothing, with one hash and with signatures that all verify.
abbrev toy : Crypto
toy = record {
  hash = λ strong bytes. 7 ∷ 8 ∷ [];
  encrypt = λ key bytes. some bytes;
  decrypt = λ key bytes. bytes;
  parses = λ cert. true;
  cert_signature = λ cert. cert;
  verifies = λ message signature cert. true;
  sign = λ secret. some secret;
  own_signature = 5 ∷ [];
  salt = 1 ∷ 2 ∷ [];
  random_challenge = 3 ∷ [];
  client_secret = 4 ∷ [];
  stale = [];
  stale_len = 0;
}

abbrev pin : Bytes
pin = codes "1234"

abbrev refusing : Client
refusing = meeting ((gs_ok, declined) ∷ [])

-- A host that answers all five stages.
abbrev accepts : Bytes → Bytes → ℤ × Document
accepts name value = (
  gs_ok,
  some (flatten (root (codes "200") (leaf (codes "paired") (codes "1") (leaf name value nil)))),
)

abbrev willing : Client
willing = meeting (
    accepts (codes "plaincert") (codes "3082")
    ∷ accepts (codes "challengeresponse") (codes "0708")
    ∷ accepts (codes "pairingsecret") (codes "0a0b")
    ∷ accepts (codes "x") []
    ∷ accepts (codes "x") []
    ∷ [])

gs_pair-willing : (gs_pair toy pin host willing).server.paired ≡ true
unfolding gs_pair pair_body stage_cert first_reply read_cert stage_challenge stage_reply
    stage_response check_server stage_secret pair_cleanup pair_request search_or_code
    search_or_invalid http_request xml_status xml_search search_events search_event flatten str_eq
    hex_to_bytes decode_pairs pair_value out_of_table
gs_pair-willing = refl

gs_pair-Authentic_example : Authentic toy host (codes "2d2d") pin willing
gs_pair-Authentic_example = gs_pair-Authentic toy pin host willing refl gs_pair-willing

declined-answer :
    (xml_status declined ≡ gs_ok)
    × (xml_search declined (codes "paired") ≡ (gs_ok, some (codes "0")))
unfolding xml_status xml_search search_events search_event flatten str_eq
declined-answer = (refl, refl)

zero-one : str_eq (codes "0") (codes "1") ≡ false
unfolding str_eq
zero-one = refl

abbrev paired_host : Server
paired_host = record host { paired = true }
