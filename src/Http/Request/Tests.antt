-- ===== src/Http/Request/Tests.antt =====
-- libgamestream/http.c: requests to a host of the local network.
use moonlight_wii.Prelude.{
  ℕ, ◌-◌, ◌<◌, ◌≡◌, refl, true, false, some, List, [], ◌∷◌, ◌++◌, length, replicate, arith,
}
use moonlight_wii.Prelude.Int.{ℤ, pos, negsuc}
use moonlight_wii.Prelude.Decimal.{atoi}
use moonlight_wii.Prelude.Text.{Bytes, codes, is_prefix, contains}
use moonlight_wii.Http.{index_of}
use moonlight_wii.Http.Url.{Url, parse_url, strip_prefix}
use moonlight_wii.Http.RoundTrip.{lacks}
use moonlight_wii.Http.Response.{
  crlf2, received, timed_out, content_length_at, parse_content_length, matches, skip_separators,
}
use moonlight_wii.Http.Chunks.{IsHead, all, piece}
use moonlight_wii.Http.Request.{
  closed, opened, want, agreed, Net, Tls, failure, handshake, Slice, send_all, request_text,
  tls_request_text, http_request,
}
use moonlight_wii.Http.Request.Sending.{
  Accepts, none_left, some_taken, Sent, length-tls_request_text, send_request-Sent,
}
use moonlight_wii.Http.Request.Exchange.{
  Gets, http_request-Gets, Closes, http_request-Closes, Agrees, brings, TlsGets,
  tls_request-TlsGets,
}

abbrev host : Bytes
host = codes "10.0.0.2"

abbrev path : Bytes
path = codes "/serverinfo?uniqueid=1"

abbrev url : Bytes
url = codes "http://10.0.0.2:47989/serverinfo?uniqueid=1"

abbrev target : Url
target = record { is_https = false; host = host; port = pos 47989; path = path }

url-target : parse_url url ≡ some target
unfolding parse_url index_of strip_prefix atoi
url-target = refl

-- The request of 114 bytes is taken in two portions.
abbrev replies : List ℤ
replies = pos 100 ∷ pos 14 ∷ []

taken : Accepts replies (length (request_text host path))
unfolding request_text
taken = some_taken 99 14 _ (pos 14 ∷ []) refl (some_taken 13 0 14 [] refl (none_left [] 0 refl))

send_request-Sent_example : Sent host path replies
send_request-Sent_example = send_request-Sent url target replies url-target taken

abbrev head : Bytes
head = codes "HTTP/1.1 200 OK\r\nContent-Length: 4"

head-IsHead : IsHead head 4
unfolding lacks contains is_prefix parse_content_length content_length_at matches skip_separators
    atoi
head-IsHead = record { no_nul = refl; no_crlf2 = refl; no_lf2 = refl; announces = λ rest. refl }

abbrev no_tls : Tls
no_tls = record {
  seeded = false;
  cert_parsed = false;
  key_parsed = false;
  set_up = false;
  handshakes = [];
  writes = [];
  reads = [];
}

abbrev net : Net
net = record {
  attempt = record { socket = some 3; is_literal = true; resolves = false; connects = true };
  replies = replies;
  events = received head ∷ received (crlf2 ++ codes "root") ∷ timed_out ∷ [];
  tls = no_tls;
}

http_request-Gets_example : Gets net url (codes "old") target 3 (codes "root")
http_request-Gets_example =
    http_request-Gets net url (codes "old") target 3 head (codes "root") url-target refl
      (record { socket = refl; known = refl; connects = refl }) taken head-IsHead
      (piece head _ (crlf2 ++ codes "root") (piece (crlf2 ++ codes "root") _ [] (all _)))
      (omega arith)

-- Without a certificate the request fails, and leaves what the memory held.
abbrev secure_url : Bytes
secure_url = codes "https://10.0.0.2:47984/launch"

secure_failure :
    http_request net secure_url (codes "old")
    ≡ some (failure (codes "old") [], opened 3 ∷ closed 3 ∷ [])
unfolding http_request index_of strip_prefix atoi
secure_failure = refl

http_request-Closes_example : Closes (failure (codes "old") []) (opened 3 ∷ closed 3 ∷ [])
http_request-Closes_example =
    http_request-Closes net secure_url (codes "old") (failure (codes "old") [])
      (opened 3 ∷ closed 3 ∷ []) secure_failure

-- Two of the four bytes that were announced arrive.
abbrev session : Tls
session = record {
  seeded = true;
  cert_parsed = true;
  key_parsed = true;
  set_up = true;
  handshakes = want ∷ agreed ∷ [];
  writes = pos 74 ∷ [];
  reads = brings ((head ++ (crlf2 ++ codes "ro")) ∷ []) [];
}

taken_whole : Accepts session.writes (length (tls_request_text host path))
unfolding tls_request_text
taken_whole = some_taken 73 0 _ [] refl (none_left [] 0 refl)

session-Agrees : Agrees session
unfolding handshake
session-Agrees = record { ready = refl; session = refl }

tls_request-TlsGets_example : TlsGets session host path [] (codes "ro")
tls_request-TlsGets_example =
    tls_request-TlsGets session host path [] head (codes "ro") 4
      ((head ++ (crlf2 ++ codes "ro")) ∷ []) [] session-Agrees (omega arith) taken_whole head-IsHead
      refl refl

abbrev long_path : Bytes
long_path = replicate 4060 b'x'

abbrev refused_at : ℕ → List Slice
refused_at len = record { offset = 0; offered = len - 0; took = 0 } ∷ []

refused_once : (len : ℕ) → 0 < len → send_all (negsuc 0 ∷ []) len 0 ≡ some (false, refused_at len)
unfolding send_all
refused_once len h = ground arith

abbrev long_slices : List Slice
long_slices = refused_at (length (tls_request_text host long_path))

long_refused :
    send_all (negsuc 0 ∷ []) (length (tls_request_text host long_path)) 0
    ≡ some (false, long_slices)
long_refused =
    refused_once (length (tls_request_text host long_path))
      (omega (arith, length-tls_request_text host long_path))
