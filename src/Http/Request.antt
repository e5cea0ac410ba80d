-- ===== src/Http/Request.antt =====
-- libgamestream/http.c: how a connection is made, a request sent, and the whole of `http_request`.
pub mod Sending
pub mod Exchange
mod Tests
use moonlight_wii.Prelude.{
  ℕ, zero, suc, ◌+◌, ◌-◌, Bool, true, false, Option, none, some, List, [], ◌∷◌, ◌++◌, ◌&&◌, ◌||◌,
  map, ltb, if◌then◌else◌, length, take, drop,
}
use moonlight_wii.Prelude.Int.{ℤ, pos, negsuc, pos_part}
use moonlight_wii.Prelude.Memory.{join}
use moonlight_wii.Prelude.Text.{Bytes, codes}
use moonlight_wii.Http.Url.{Url, parse_url}
use moonlight_wii.Http.Response.{Event, strip_headers, read_response}

-- What happens to a socket.
pub data Use : Type 0 where
  opened : ℕ → Use
  closed : ℕ → Use

-- What the calls of `connect_host` come to: the socket, if there is one; whether the host is an address;
-- whether DNS knows it; whether the host takes the connection.
pub record Attempt : Type 0 where
  pub socket : Option ℕ
  pub is_literal : Bool
  pub resolves : Bool
  pub connects : Bool

unfoldable pub connect_host : Attempt → Option ℕ × List Use
connect_host a = elim a.socket [
  | none ↦ (none, [])
  | some fd ↦
      if a.is_literal || a.resolves
      then (if a.connects then (some fd, opened fd ∷ []) else (none, opened fd ∷ closed fd ∷ []))
      else (none, opened fd ∷ closed fd ∷ [])
]

-- A call of `send`: where in the buffer the bytes begin, how many are offered, how many are taken.
pub record Slice : Type 0 where
  pub offset : ℕ
  pub offered : ℕ
  pub took : ℕ

-- The end of the loop, behind one more call.
abbrev pub behind : Slice → Option (Bool × List Slice) → Option (Bool × List Slice)
behind s none = none
behind s (some (ok, slices)) = some (ok, s ∷ slices)

abbrev pub took_some : ℤ → Bool
took_some (pos zero) = false
took_some (pos (suc n)) = true
took_some (negsuc n) = false

-- while (sent < requestLen), with what each call returns; `none` while a call waits.
unfoldable pub send_all : List ℤ → ℕ → ℕ → Option (Bool × List Slice)
send_all [] len sent = if ltb sent len then none else some (true, [])
send_all (r ∷ replies) len sent =
    let s : Slice = record { offset = sent; offered = len - sent; took = pos_part r } in
    let rest = behind s (send_all replies len (sent + pos_part r)) in
    if ltb sent len then (if took_some r then rest else some (false, s ∷ [])) else some (true, [])

-- What `snprintf` leaves of a text in a buffer; it returns the length of the whole text.
abbrev pub printed : ℕ → Bytes → Bytes
printed size text = take (size - 1) text

unfoldable pub request_text : Bytes → Bytes → Bytes
request_text host path =
    codes "GET "
    ++ (path
        ++ (codes " HTTP/1.1\r\nHost: "
            ++ (host
                ++ codes
                    "\r\nUser-Agent: Moonlight/1.0\r\nAccept: */*\r\nConnection: close\r\n\r\n")))

unfoldable pub tls_request_text : Bytes → Bytes → Bytes
tls_request_text host path =
    codes "GET "
    ++ (path ++ (codes " HTTP/1.1\r\nHost: " ++ (host ++ codes "\r\nConnection: close\r\n\r\n")))

abbrev pub code_of : Bool → ℤ
code_of true = pos 0
code_of false = negsuc 0

-- The code, and the calls of `send`.
unfoldable pub send_request : List ℤ → Bytes → Bytes → Option (ℤ × List Slice)
unfolding send_all request_text
send_request replies host path = elim (send_all replies (length (request_text host path)) 0) [
  | none ↦ none
  | some (ok, slices) ↦ some (code_of ok, slices)
]

-- What `mbedtls_ssl_handshake` returns.
pub data Handshake : Type 0 where
  want : Handshake
  agreed : Handshake
  failed : Handshake

unfoldable pub handshake : List Handshake → Option Bool
handshake [] = none
handshake (want ∷ results) = handshake results
handshake (agreed ∷ results) = some true
handshake (failed ∷ results) = some false

-- What `mbedtls_ssl_read` brings: bytes, which are put into memory or find none, or a result of at most 0.
pub data Read : Type 0 where
  brought : Bytes → Read
  no_room : Bytes → Read
  ended : Read

-- The loop over `mbedtls_ssl_read`: whether `strip_headers` is reached, and the memory.
unfoldable pub tls_receive : List Read → Bytes → Option (Bool × Bytes)
tls_receive [] mem = none
tls_receive (brought buf ∷ reads) mem = tls_receive reads (mem ++ buf)
tls_receive (no_room buf ∷ reads) mem = some (false, mem)
tls_receive (ended ∷ reads) mem = some (true, mem)

-- What the calls of mbedtls come to.
pub record Tls : Type 0 where
  pub seeded : Bool
  pub cert_parsed : Bool
  pub key_parsed : Bool
  pub set_up : Bool
  pub handshakes : List Handshake
  pub writes : List ℤ
  pub reads : List Read

-- The code, the memory that `data` then holds, and the calls that wrote the request.
pub record Reply : Type 0 where
  pub code : ℤ
  pub memory : Bytes
  pub slices : List Slice

abbrev pub failure : Bytes → List Slice → Reply
failure memory slices = record { code = negsuc 0; memory = memory; slices = slices }

-- What is behind the request that was sent.
unfoldable pub tls_read : List Read → List Slice → Option Reply
unfolding tls_receive strip_headers
tls_read reads slices = elim (tls_receive reads []) [
  | none ↦ none
  | some (true, mem) ↦ some (record { code = pos 0; memory = strip_headers mem; slices = slices })
  | some (false, mem) ↦ some (failure mem slices)
]

-- What is behind the handshake.
unfoldable pub tls_write : Tls → ℕ → Bytes → Option Reply
unfolding send_all tls_read
tls_write t len memory = elim (send_all t.writes len 0) [
  | none ↦ none
  | some (true, slices) ↦ tls_read t.reads slices
  | some (false, slices) ↦ some (failure memory slices)
]

unfoldable pub tls_request : Tls → Bytes → Bytes → Bytes → Option Reply
unfolding handshake tls_write tls_request_text
tls_request t host path memory =
    if t.seeded && t.cert_parsed && t.key_parsed && t.set_up
    then elim (handshake t.handshakes) [
      | none ↦ none
      | some true ↦ tls_write t (length (tls_request_text host path)) memory
      | some false ↦ some (failure memory [])
    ]
    else some (failure memory [])

-- Everything that a request meets.
pub record Net : Type 0 where
  pub attempt : Attempt
  pub replies : List ℤ
  pub events : List Event
  pub tls : Tls

unfoldable pub plain_request : Net → Bytes → Bytes → Bytes → Option Reply
unfolding send_request read_response
plain_request net host path memory = elim (send_request net.replies host path) [
  | none ↦ none
  | some (negsuc n, slices) ↦ some (failure memory slices)
  | some (pos n, slices) ↦ elim (read_response net.events) [
    | none ↦ none
    | some (code, body) ↦ some (record { code = code; memory = body; slices = slices })
  ]
]

unfoldable pub exchange : Net → Url → Bytes → Option Reply
unfolding plain_request tls_request
exchange net u memory =
    if u.is_https
    then tls_request net.tls u.host u.path memory
    else plain_request net u.host u.path memory

-- What is behind `connect_host`: the socket is closed at the end.
unfoldable pub request_on : Net → Url → Bytes → Option ℕ × List Use → Option (Reply × List Use)
unfolding exchange
request_on net u memory (none, uses) = some (failure memory [], uses)
request_on net u memory (some fd, uses) = elim (exchange net u memory) [
  | none ↦ none
  | some reply ↦ some (reply, uses ++ closed fd ∷ [])
]

-- The reply, and what happened to sockets; `none` while a call waits.
unfoldable pub http_request : Net → Bytes → Bytes → Option (Reply × List Use)
unfolding parse_url connect_host request_on
http_request net url memory = elim (parse_url url) [
  | none ↦ some (failure memory [], [])
  | some u ↦ request_on net u memory (connect_host net.attempt)
]
