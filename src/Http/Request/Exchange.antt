-- ===== src/Http/Request/Exchange.antt =====
-- libgamestream/http.c: a request from its URL to the body, and what becomes of its socket.
use moonlight_wii.Prelude.{
  ℕ, ◌+◌, ◌≤◌, ◌<◌, ◌≡◌, refl, sym, ap, ◌∙◌, inl, inr, true, false, ◌&&◌, ◌||◌, Option, none, some,
  Option-cases, Bool-cases, List, [], ◌∷◌, ◌++◌, append_assoc, append-nil, length, arith,
}
use moonlight_wii.Prelude.Int.{pos, negsuc}
use moonlight_wii.Prelude.Memory.{join}
use moonlight_wii.Prelude.Text.{Bytes}
use moonlight_wii.Http.Url.{Url, parse_url}
use moonlight_wii.Http.Response.{crlf2, strip_headers, read_response}
use moonlight_wii.Http.Chunks.{IsHead, Brings, read_response-whole, strip_headers-behind}
use moonlight_wii.Http.Request.{
  Use, opened, closed, Attempt, connect_host, Slice, printed, request_text, tls_request_text,
  send_request, handshake, Read, brought, ended, tls_receive, Tls, Reply, tls_read, tls_write,
  tls_request, Net, plain_request, exchange, request_on, http_request,
}
use moonlight_wii.Http.Request.Sending.{
  Accepts, carried, send_all-Delivers, send_request-Sent, length-tls_request_text, take_all,
}

-- The host is found, and takes the connection.
pub record Connects (a : Attempt) (fd : ℕ) : Type 0 where
  pub socket : a.socket ≡ some fd
  pub known : a.is_literal || a.resolves ≡ true
  pub connects : a.connects ≡ true

Connects-connect_host :
    (a : Attempt) (fd : ℕ) → Connects a fd → connect_host a ≡ (some fd, opened fd ∷ [])
unfolding connect_host
Connects-connect_host a fd c = rw (connect_host, c.socket, c.known, c.connects) refl

exchange_plain :
    (net : Net) (u : Url) (memory : Bytes)
    → u.is_https ≡ false
    → exchange net u memory ≡ plain_request net u.host u.path memory
unfolding exchange
exchange_plain net u memory plain = ground arith

plain_request_lem :
    (net : Net) (host path memory body : Bytes) (slices : List Slice)
    → send_request net.replies host path ≡ some (pos 0, slices)
    → read_response net.events ≡ some (pos 0, body)
    → plain_request net host path memory
      ≡ some (record { code = pos 0; memory = body; slices = slices })
unfolding plain_request
plain_request_lem net host path memory body slices sent read = rw (plain_request, sent, read) refl

-- A request without TLS that succeeds.
pub record Gets (net : Net) (url memory : Bytes) (u : Url) (fd : ℕ) (body : Bytes) : Type 0 where
  pub slices : List Slice
  pub result :
      http_request net url memory
      ≡ some (record { code = pos 0; memory = body; slices = slices }, opened fd ∷ closed fd ∷ [])
  pub whole :
      carried (printed 8192 (request_text u.host u.path)) slices ≡ request_text u.host u.path

-- For an "http" URL, a host that takes the connection, a socket that takes at every call at least one byte
-- and no more than it is offered, and an answer of at least one byte, in whatever pieces, whose head
-- announces the length of its body: the request's text is sent, the result is 0 with the body of the
-- answer whatever the memory held before, and the socket is closed.
pub http_request-Gets :
    (net : Net) (url memory : Bytes) (u : Url) (fd : ℕ) (head body : Bytes)
    → parse_url url ≡ some u
    → u.is_https ≡ false
    → Connects net.attempt fd
    → Accepts net.replies (length (request_text u.host u.path))
    → IsHead head (length body)
    → Brings net.events (head ++ (crlf2 ++ body))
    → 0 < length body
    → Gets net url memory u fd body
unfolding http_request request_on
http_request-Gets net url memory u fd head body e plain c a p b h =
    let sent = send_request-Sent url u net.replies e a in
    let run =
      exchange_plain net u memory plain
      ∙ plain_request_lem net u.host u.path memory body sent.slices sent.code
          (read_response-whole head body p net.events b h) in
    record {
      slices = sent.slices;
      result = rw (http_request, e, Connects-connect_host net.attempt fd c, request_on, run) refl;
      whole = sent.whole;
    }

-- No socket was opened, or one was, and it is closed.
pub data Closes (r : Reply) : List Use → Type 0 where
  unopened : {uses : List Use} → uses ≡ [] → r.code ≡ negsuc 0 → Closes r uses
  used : {uses : List Use} (fd : ℕ) → uses ≡ opened fd ∷ closed fd ∷ [] → Closes r uses

data Outcome (x : Option ℕ × List Use) : Type 0 where
  no_socket : x ≡ (none, []) → Outcome x
  dropped : (fd : ℕ) → x ≡ (none, opened fd ∷ closed fd ∷ []) → Outcome x
  made : (fd : ℕ) → x ≡ (some fd, opened fd ∷ []) → Outcome x

connect_host-Outcome : (a : Attempt) → Outcome (connect_host a)
unfolding connect_host
connect_host-Outcome a = elim (Option-cases a.socket) [
  | inl n ↦ no_socket (rw (connect_host, n) refl)
  | inr (fd, s) ↦ elim (Bool-cases (a.is_literal || a.resolves)) [
    | inl k ↦ elim (Bool-cases a.connects) [
      | inl c ↦ made fd (rw (connect_host, s, k, c) refl)
      | inr c ↦ dropped fd (rw (connect_host, s, k, c) refl)
    ]
    | inr k ↦ dropped fd (rw (connect_host, s, k) refl)
  ]
]

module _ (net : Net) (u : Url) (memory : Bytes) (r : Reply) (uses : List Use) where
  request_on-Closes :
      (x : Option ℕ × List Use)
      → Outcome x
      → request_on net u memory x ≡ some (r, uses)
      → Closes r uses
  unfolding request_on
  request_on-Closes x (no_socket e) h =
      let h' : request_on net u memory (none, []) ≡ some (r, uses) =
        ap (request_on net u memory) (sym e) ∙ h in
      unopened (ground arith) (ground arith)
  request_on-Closes x (dropped fd e) h =
      let h' : request_on net u memory (none, opened fd ∷ closed fd ∷ []) ≡ some (r, uses) =
        ap (request_on net u memory) (sym e) ∙ h in
      used fd (ground arith)
  request_on-Closes x (made fd e) h =
      let h' : request_on net u memory (some fd, opened fd ∷ []) ≡ some (r, uses) =
        ap (request_on net u memory) (sym e) ∙ h in
      elim (Option-cases (exchange net u memory)) [
        | inl n ↦ absurd (ground arith)
        | inr (reply, x) ↦ used fd (ground arith)
      ]

-- Whatever the calls come to, a request that returns has closed the socket that it opened, and one that
-- opened none has failed.
pub http_request-Closes :
    (net : Net) (url memory : Bytes) (r : Reply) (uses : List Use)
    → http_request net url memory ≡ some (r, uses)
    → Closes r uses
unfolding http_request
http_request-Closes net url memory r uses e = elim (Option-cases (parse_url url)) [
  | inl bad ↦ unopened (ground arith) (ground arith)
  | inr (u, good) ↦
      request_on-Closes net u memory r uses (connect_host net.attempt)
        (connect_host-Outcome net.attempt) (ground arith)
]

-- The bytes that mbedtls brings, until the session ends or a read fails.
abbrev pub brings : List Bytes → List Read → List Read
brings [] more = ended ∷ more
brings (b ∷ pieces) more = brought b ∷ brings pieces more

tls_receive-brings :
    (pieces : List Bytes) (more : List Read) (mem : Bytes)
    → tls_receive (brings pieces more) mem ≡ some (true, mem ++ join pieces)
unfolding tls_receive
tls_receive-brings [] more mem = rw append-nil
tls_receive-brings (b ∷ pieces) more mem =
    tls_receive-brings pieces more (mem ++ b)
    ∙ ap (λ (t : Bytes). some (true, t)) (append_assoc mem b (join pieces))

-- The certificate and the key are there, and the host agrees on a session after any number of calls.
pub record Agrees (t : Tls) : Type 0 where
  pub ready : t.seeded && t.cert_parsed && t.key_parsed && t.set_up ≡ true
  pub session : handshake t.handshakes ≡ some true

pub record TlsGets (t : Tls) (host path memory body : Bytes) : Type 0 where
  pub slices : List Slice
  pub result :
      tls_request t host path memory
      ≡ some (record { code = pos 0; memory = body; slices = slices })
  pub whole :
      carried (printed 4096 (tls_request_text host path)) slices ≡ tls_request_text host path

-- Over TLS, for a host that agrees and takes the request, which fits its buffer: the request's text is
-- sent, and whatever part of the answer's body has arrived when a read ends or fails, none of it included,
-- is the body of a request that succeeded, however much was announced.
pub tls_request-TlsGets :
    (t : Tls) (host path memory head part : Bytes) (n : ℕ) (pieces : List Bytes) (more : List Read)
    → Agrees t
    → length path + length host ≤ 4051
    → Accepts t.writes (length (tls_request_text host path))
    → IsHead head n
    → t.reads ≡ brings pieces more
    → join pieces ≡ head ++ (crlf2 ++ part)
    → TlsGets t host path memory part
unfolding tls_request tls_write tls_read
tls_request-TlsGets t host path memory head part n pieces more g fits a p reads arrived =
    let text = tls_request_text host path in
    let short : length text ≤ 4095 = omega (arith, length-tls_request_text host path) in
    let d = send_all-Delivers text 4096 0 (length text) t.writes (omega arith) (omega arith) a in
    let body = ap strip_headers arrived ∙ strip_headers-behind head n p part in
    record {
      slices = d.slices;
      result =
          rw
            (
              tls_request,
              g.ready,
              g.session,
              tls_write,
              d.ends,
              tls_read,
              reads,
              tls_receive-brings pieces more [],
              body,
            )
            refl;
      whole = rw (take_all 4095 text short) d.whole;
    }
