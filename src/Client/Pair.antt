-- ===== src/Client/Pair.antt =====
-- libgamestream/client.c: `gs_pair`, cut into the stages that its comments name. The cryptography is
-- another library's; allocation and the seeding of the random source are taken to succeed.
pub mod Laws
use moonlight_wii.Prelude.{
  ℕ, ◌+◌, ◌/◌, Bool, true, false, not, Option, none, some, ◌++◌, if◌then◌else◌, ltb, take, drop,
  length, replicate,
}
use moonlight_wii.Prelude.Int.{pos, ltb_ℤ, is_zero}
use moonlight_wii.Prelude.Text.{Bytes, codes, str_eq}
use moonlight_wii.Errors.{gs_ok, gs_failed, gs_invalid, gs_wrong_state, is_ok}
use moonlight_wii.Hex.{bytes_to_hex, hex_to_bytes}
use moonlight_wii.Xml.{Document, xml_search, xml_status}
use moonlight_wii.Client.{
  Server, Client, Outcome, done, raised, Exec, ◌>>=◌, ◌>>◌, ret, fail_if, found, url_for,
  http_request,
}
use moonlight_wii.Client.Requests.{Answer, gs_unpair}

-- What `gs_pair` calls: `hash_data`, `crypt_data`, `verifySignature` and `generateSignature` of
-- crypto.h, the certificate parser, and the random source; and what its uninitialised locals hold.
-- The first argument of `hash` says whether it is SHA-256.
pub record Crypto : Type 0 where
  pub hash : Bool → Bytes → Bytes
  pub encrypt : Bytes → Bytes → Option Bytes
  pub decrypt : Bytes → Bytes → Bytes
  pub parses : Bytes → Bool
  pub cert_signature : Bytes → Bytes
  pub verifies : Bytes → Bytes → Bytes → Bool
  pub sign : Bytes → Option Bytes
  pub own_signature : Bytes
  pub salt : Bytes
  pub random_challenge : Bytes
  pub client_secret : Bytes
  pub stale : Bytes
  pub stale_len : ℕ

-- A local array of which the first bytes were written.
abbrev pub over : Bytes → Bytes → Bytes
over written stale = written ++ drop (length written) stale

-- serverMajorVersion >= 7
abbrev pub is_sha256 : Server → Bool
is_sha256 s = not (ltb_ℤ s.major_version (pos 7))

abbrev pub hash_length : Server → ℕ
hash_length s = if is_sha256 s then 32 else 20

-- hash_data(hash_algo, &salted_pin, ...): AES-128 uses the first 16 bytes.
abbrev pub aes_key : Crypto → Server → Bytes → Bytes
aes_key k s pin = k.hash (is_sha256 s) (k.salt ++ take 4 pin)

-- A request of "pair" with these parameters; `ret` is the code where it fails.
unfoldable pub pair_request : Bool → Bytes → Bytes → Exec Client Document
pair_request secure address params c =
    let ((code, d), c') =
      http_request (url_for 5120 secure address (codes "pair") (some params) c) c in
    if is_ok code then (Outcome.done d, c') else (Outcome.raised code, c')

-- An `xml_search` that ends the body with its own code.
unfoldable pub search_or_code : Document → Bytes → Exec Client Bytes
search_or_code d node c =
    let r = xml_search d node in
    elim (found r) [ none ↦ (Outcome.raised r.0, c) | some text ↦ (Outcome.done text, c) ]

-- The tests of a stage from the second on: `ret = xml_status(...) != GS_OK` is 1 at a bad status.
unfoldable pub stage_reply : Document → Exec Client (Unit {0})
stage_reply d = do
  fail_if (not (is_ok (xml_status d))) (pos 1)
  result ← search_or_code d (codes "paired")
  fail_if (not (str_eq result (codes "1"))) gs_failed

-- The tests of the first stage. Where pairing is declined, `ret` is still GS_OK at the jump.
unfoldable pub first_reply : Document → Exec Client (Unit {0})
first_reply d = do
  fail_if (not (is_ok (xml_status d))) (xml_status d)
  result ← search_or_code d (codes "paired")
  fail_if (not (str_eq result (codes "1"))) gs_ok

-- The server's certificate, in DER or PEM; one too big for the buffer leaves `ret` at GS_OK too.
unfoldable pub read_cert : Crypto → Document → Exec Client Bytes
read_cert k d = do
  result ← search_or_code d (codes "plaincert")
  fail_if (ltb 8191 (length result / 2)) gs_ok
  let (out, len) = hex_to_bytes result 8191
  let n : ℕ = elim len [ none ↦ 0 | some n ↦ n ]
  let cert = take n out
  fail_if (not (k.parses cert)) gs_failed
  ret cert

-- Sends the salt and gets the server's certificate.
unfoldable pub stage_cert : Crypto → Server → Bytes → Exec Client Bytes
stage_cert k s cert_hex = do
  d ← pair_request false s.address (
      codes "devicename=roth&updateState=1&phrase=getservercert&salt="
      ++ bytes_to_hex k.salt
      ++ codes "&clientcert="
      ++ cert_hex)
  first_reply d
  read_cert k d

-- A search whose failure is GS_INVALID.
unfoldable pub search_or_invalid : Document → Bytes → Exec Client Bytes
search_or_invalid d node c = elim (found (xml_search d node)) [
  | none ↦ (Outcome.raised gs_invalid, c)
  | some text ↦ (Outcome.done text, c)
]

abbrev encrypted_or_failed : Option Bytes → Exec Client Bytes
encrypted_or_failed none c = (Outcome.raised gs_failed, c)
encrypted_or_failed (some e) c = (Outcome.done e, c)

-- Sends the challenge; what is left is the server's answer, decrypted in a buffer of 128 bytes.
unfoldable pub stage_challenge : Crypto → Server → Bytes → Exec Client Bytes
stage_challenge k s key = do
  e ← encrypted_or_failed (k.encrypt key k.random_challenge)
  d ←
      pair_request false s.address
        (codes "devicename=roth&updateState=1&clientchallenge=" ++ bytes_to_hex e)
  stage_reply d
  result ← search_or_invalid d (codes "challengeresponse")
  let (out, len) = hex_to_bytes result 128
  let n : ℕ = elim len [ none ↦ k.stale_len | some n ↦ n ]
  ret (over (k.decrypt key (take n (over out k.stale))) k.stale)

abbrev pub challenge_response : Bytes → Bytes → Bytes → Bytes
challenge_response challenge signature secret =
    take 16 challenge ++ take 256 signature ++ take 16 secret

-- Answers the server's challenge, and gets its signed secret: 16 bytes and a signature of 256.
unfoldable pub stage_response : Crypto → Server → Bytes → Bytes → Exec Client (Bytes × Bytes)
stage_response k s key dec = do
  let hash =
      k.hash (is_sha256 s)
        (challenge_response (drop (hash_length s) dec) k.own_signature k.client_secret)
  let encrypted : Bytes = elim (k.encrypt key (take 32 (hash ++ replicate 32 0))) [
    | none ↦ k.stale
    | some e ↦ e
  ]
  d ←
      pair_request false s.address
        (codes "devicename=roth&updateState=1&serverchallengeresp=" ++ bytes_to_hex encrypted)
  stage_reply d
  result ← search_or_invalid d (codes "pairingsecret")
  let secret = over (hex_to_bytes result 272).0 k.stale
  ret (take 16 secret, take 256 (drop 16 secret))

-- The server's signature is its certificate's, and its challenge came from the PIN.
unfoldable pub check_server :
    Crypto → Server → Bytes → Bytes → Bytes × Bytes → Exec Client (Unit {0})
check_server k s cert dec secret = do
  fail_if (not (k.verifies secret.0 secret.1 cert)) gs_failed
  fail_if
      (not (
        str_eq
          (take (hash_length s) (
            k.hash (is_sha256 s)
              (challenge_response k.random_challenge (k.cert_signature cert) secret.0)))
          (take (hash_length s) dec)))
      gs_failed

-- Sends our signed secret, and a first request over HTTPS.
unfoldable pub stage_secret : Crypto → Server → Exec Client (Unit {0})
stage_secret k s = do
  signature ← encrypted_or_failed (k.sign k.client_secret)
  d ← pair_request false s.address (
      codes "devicename=roth&updateState=1&clientpairingsecret="
      ++ bytes_to_hex (k.client_secret ++ take 256 signature))
  stage_reply d
  d ← pair_request true s.address (codes "devicename=roth&updateState=1&phrase=pairchallenge")
  stage_reply d

-- The body up to `cleanup`; a result is where it sets `paired`.
unfoldable pub pair_body : Crypto → Server → Bytes → Bytes → Exec Client (Unit {0})
pair_body k s cert_hex pin = do
  fail_if s.paired gs_wrong_state
  cert ← stage_cert k s cert_hex
  dec ← stage_challenge k s (aes_key k s pin)
  secret ← stage_response k s (aes_key k s pin) dec
  check_server k s cert dec secret
  stage_secret k s

-- `cleanup`: a failure unpairs, and is put down to a running game where there is one.
unfoldable pub pair_cleanup : Outcome (Unit {0}) → Server → Client → Answer
pair_cleanup (done a) s c = record { code = gs_ok; server = record s { paired = true }; client = c }
pair_cleanup (raised e) s c =
    if is_ok e
    then record { code = e; server = s; client = c }
    else let r = gs_unpair s c in
      record r { code = if is_zero s.current_game then e else gs_wrong_state }

unfoldable pub gs_pair : Crypto → Bytes → Server → Client → Answer
gs_pair k pin s c = let (o, c') = pair_body k s c.cert_hex pin c in pair_cleanup o s c'
