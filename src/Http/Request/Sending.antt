-- ===== src/Http/Request/Sending.antt =====
-- libgamestream/http.c: what the socket is given of a request, and what of it lies in the buffer.
use moonlight_wii.Prelude.{
  Bool-cases, inl, inr, ℕ, zero, suc, ◌+◌, ◌-◌, ◌≤◌, ◌<◌, ◌≡◌, refl, sym, ap, ◌∙◌, true, Option,
  none, some, List, [], ◌∷◌, ◌++◌, lt→ltb, length, length-append, length-take, Bool, take, drop,
  take-append-drop, arith,
}
use mathlib.Core.Path.{subst}
use moonlight_wii.Prelude.Int.{ℤ, pos, pos_part}
use moonlight_wii.Prelude.Memory.{drop-drop, drop_all}
use moonlight_wii.Prelude.Text.{Bytes, codes}
use moonlight_wii.Http.{index_of}
use moonlight_wii.Http.Url.{Url, parse_url, parse_rest, store_url, parse_host}
use moonlight_wii.Http.Request.{
  Slice, behind, send_all, took_some, printed, request_text, tls_request_text, send_request,
}

-- The calls take the bytes that are left: at least one of them each, and no more than is offered.
pub data Accepts : List ℤ → ℕ → Type 0 where
  none_left : (replies : List ℤ) (left : ℕ) → left ≡ 0 → Accepts replies left
  some_taken :
      (n left total : ℕ) (replies : List ℤ)
      → total ≡ suc n + left
      → Accepts replies left
      → Accepts (pos (suc n) ∷ replies) total

-- What the socket took, put together.
unfoldable pub carried : Bytes → List Slice → Bytes
carried buffer [] = []
carried buffer (s ∷ slices) = take s.took (drop s.offset buffer) ++ carried buffer slices

-- Every call reads within a buffer of this size.
abbrev pub Inside : ℕ → List Slice → Type 0
Inside size [] = Unit
Inside size (s ∷ slices) = (s.offset + s.offered ≤ size) × Inside size slices

pub record Delivers (text : Bytes) (size sent : ℕ) (replies : List ℤ) : Type 0 where
  pub slices : List Slice
  pub ends : send_all replies (length text) sent ≡ some (true, slices)
  pub whole : carried text slices ≡ drop sent text
  pub inside : Inside size slices

send_all_done : (replies : List ℤ) (len : ℕ) → send_all replies len len ≡ some (true, [])
unfolding send_all
send_all_done [] len = ground arith
send_all_done (r ∷ replies) len = ground arith

pub send_all-Delivers :
    (text : Bytes) (size sent left : ℕ) (replies : List ℤ)
    → length text ≤ size
    → sent + left ≡ length text
    → Accepts replies left
    → Delivers text size sent replies
unfolding send_all carried
send_all-Delivers text size sent left replies fits e (none_left _ _ done) =
    let at_end : sent ≡ length text = omega arith in
    record {
      slices = [];
      ends = rw at_end (send_all_done replies (length text));
      whole = sym (drop_all text sent (omega arith));
      inside = tt;
    }
send_all-Delivers text size sent left _ fits e (some_taken n rest _ replies total a) =
    let next = send_all-Delivers text size (sent + suc n) rest replies fits (omega arith) a in
    record {
      slices = record { offset = sent; offered = length text - sent; took = suc n } ∷ next.slices;
      ends = rw (send_all, lt→ltb sent (length text) (omega arith), next.ends) refl;
      whole =
          ap (λ t. take (suc n) (drop sent text) ++ t)
            (next.whole
              ∙ (ap (λ (k : ℕ). drop k text) (omega arith) ∙ sym (drop-drop sent (suc n) text)))
          ∙ take-append-drop (suc n) (drop sent text);
      inside = (omega arith, next.inside);
    }

length-request_text :
    (host path : Bytes) → length (request_text host path) ≡ length path + length host + 84
unfolding request_text
length-request_text host path = omega (
  arith,
  length-append path (
      codes " HTTP/1.1\r\nHost: "
      ++ (host
          ++ codes "\r\nUser-Agent: Moonlight/1.0\r\nAccept: */*\r\nConnection: close\r\n\r\n")),
  length-append host
      (codes "\r\nUser-Agent: Moonlight/1.0\r\nAccept: */*\r\nConnection: close\r\n\r\n"),
)

pub length-tls_request_text :
    (host path : Bytes) → length (tls_request_text host path) ≡ length path + length host + 44
unfolding tls_request_text
length-tls_request_text host path = omega (
  arith,
  length-append path
      (codes " HTTP/1.1\r\nHost: " ++ (host ++ codes "\r\nConnection: close\r\n\r\n")),
  length-append host (codes "\r\nConnection: close\r\n\r\n"),
)

-- What `parse_url` stores has left room for the closing NUL.
store_url-fits :
    (is_https : Bool) (p : Bytes) (host_end : Option ℕ) (h : ℕ × ℤ) {u : Url}
    → store_url is_https p host_end h ≡ some u
    → (length u.host < 256) × (length u.path < 4096)
unfolding store_url
store_url-fits is_https p host_end h e = ground (arith, length-take h.0 p)

parse_rest-fits :
    (is_https : Bool) (p : Bytes) {u : Url}
    → parse_rest is_https p ≡ some u
    → (length u.host < 256) × (length u.path < 4096)
unfolding parse_rest
parse_rest-fits is_https p e =
    let host_end = index_of b'/' p in
    store_url-fits is_https p host_end (parse_host is_https p (index_of b':' p) host_end) e

pub parse_url-fits :
    (url : Bytes) {u : Url}
    → parse_url url ≡ some u
    → (length u.host < 256) × (length u.path < 4096)
unfolding parse_url
parse_url-fits url e = grind (arith, parse_rest-fits)

pub take_all : (n : ℕ) (s : Bytes) → length s ≤ n → take n s ≡ s
take_all zero [] h = refl
take_all zero (c ∷ s) h = absurd (omega arith)
take_all (suc n) [] h = refl
take_all (suc n) (c ∷ s) h = ap (λ t. c ∷ t) (take_all n s (omega arith))

pub record Sent (host path : Bytes) (replies : List ℤ) : Type 0 where
  pub slices : List Slice
  pub code : send_request replies host path ≡ some (pos 0, slices)
  pub whole : carried (printed 8192 (request_text host path)) slices ≡ request_text host path
  pub inside : Inside 8192 slices

-- For a host and a path that `parse_url` stored, and a socket that takes bytes at every call, in portions
-- of any size: `send_request` returns 0, the bytes taken are the request, and only its buffer is read.
pub send_request-Sent :
    (url : Bytes) (u : Url) (replies : List ℤ)
    → parse_url url ≡ some u
    → Accepts replies (length (request_text u.host u.path))
    → Sent u.host u.path replies
unfolding send_request
send_request-Sent url u replies e a =
    let fits = parse_url-fits url e in
    let text = request_text u.host u.path in
    let short : length text ≤ 8191 = omega (arith, length-request_text u.host u.path) in
    let d = send_all-Delivers text 8192 0 (length text) replies (omega arith) (omega arith) a in
    record {
      slices = d.slices;
      code = rw (send_request, d.ends) refl;
      whole = rw (take_all 8191 text short) d.whole;
      inside = d.inside;
    }

Inside-first :
    (size : ℕ) (s : Slice) (rest slices : List Slice)
    → s ∷ rest ≡ slices
    → Inside size slices
    → s.offset + s.offered ≤ size
Inside-first size s rest slices e i = (subst (Inside size) (sym e) i).0

Inside-behind :
    (size : ℕ) (s : Slice) (rest : Option (Bool × List Slice)) (ok : Bool) (slices : List Slice)
    → behind s rest ≡ some (ok, slices)
    → Inside size slices
    → s.offset + s.offered ≤ size
Inside-behind size s none ok slices e i = cc
Inside-behind size s (some (more, rest)) ok slices e i = Inside-first size s rest slices (cc) i

Inside-le :
    (replies : List ℤ) (len size : ℕ) (ok : Bool) (slices : List Slice)
    → send_all replies len 0 ≡ some (ok, slices)
    → 0 < len
    → Inside size slices
    → len ≤ size
unfolding send_all
Inside-le [] len size ok slices e some_text i = ground arith
Inside-le (r ∷ replies) len size ok slices e some_text i =
    let s : Slice = record { offset = 0; offered = len - 0; took = pos_part r } in
    elim (Bool-cases (took_some r)) [
      | inl more ↦ omega (
        arith,
        Inside-behind size s (send_all replies len (0 + pos_part r)) ok slices (ground arith) i,
      )
      | inr less ↦ omega (arith, Inside-first size s [] slices (ground arith) i)
    ]

-- Where path and host are too long for the buffer of `tls_request`, its first call reads past the end.
pub tls_write-overrun :
    (replies : List ℤ) (host path : Bytes) (ok : Bool) (slices : List Slice)
    → 4052 < length path + length host
    → send_all replies (length (tls_request_text host path)) 0 ≡ some (ok, slices)
    → ¬ Inside 4096 slices
tls_write-overrun replies host path ok slices long e i = omega (
  arith,
  length-tls_request_text host path,
  Inside-le replies (length (tls_request_text host path)) 4096 ok slices e
      (omega (arith, length-tls_request_text host path)) i,
)
