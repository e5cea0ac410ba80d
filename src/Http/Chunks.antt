-- ===== src/Http/Chunks.antt =====
-- libgamestream/http.c: a response is received whole, however it arrives.
use moonlight_wii.Prelude.{
  ℕ, ◌+◌, ◌-◌, ◌≤◌, ◌<◌, ◌≡◌, refl, sym, ap, ap₂, ◌∙◌, inl, inr, true, false, none, some, List, [],
  ◌∷◌, ◌++◌, append_assoc, append-nil, leb, length, length-append, drop, arith, lt→ltb, Bool-cases,
}
use moonlight_wii.Prelude.Int.{pos}
use moonlight_wii.Prelude.Text.{c_string, Bytes, contains}
use moonlight_wii.Http.RoundTrip.{lacks, drop-append_length}
use moonlight_wii.Http.Response.{
  crlf2, lf2, header_length, strip_headers, parse_content_length, response_complete, Event,
  received, interrupted, timed_out, receive, read_response,
}
use moonlight_wii.Http.Search.{
  almost, c_string-append, lacks-prefix, c_string-lacks, find-append, find-crlf2, cons-eq,
  split-cases, Before,
}

-- A head that ends at the first blank line of the answer and announces `n` bytes.
pub record IsHead (head : Bytes) (n : ℕ) : Type 0 where
  pub no_nul : lacks 0 (head ++ almost) ≡ true
  pub no_crlf2 : contains (head ++ almost) crlf2 ≡ false
  pub no_lf2 : contains (head ++ almost) lf2 ≡ false
  pub announces :
      (rest : Bytes) → parse_content_length (head ++ (crlf2 ++ rest)) (length head + 4) ≡ pos n

module _ (head : Bytes) (n : ℕ) (p : IsHead head n) where
  header_length-Before : (mem : Bytes) → Before mem (head ++ almost) → header_length mem ≡ none
  unfolding header_length
  header_length-Before mem b =
      let no_nul = lacks-prefix 0 mem b.more (ap (lacks 0) b.at ∙ p.no_nul) in
      rw
        (
          header_length,
          c_string-lacks mem no_nul,
          find-append crlf2 mem b.more (ap (λ t. contains t crlf2) b.at ∙ p.no_crlf2),
          c_string-lacks mem no_nul,
          find-append lf2 mem b.more (ap (λ t. contains t lf2) b.at ∙ p.no_lf2),
        )
        refl

  c_string-behind :
      (rest : Bytes) → c_string (head ++ (crlf2 ++ rest)) ≡ head ++ (crlf2 ++ c_string rest)
  unfolding c_string
  c_string-behind rest = c_string-append head (crlf2 ++ rest) (lacks-prefix 0 head almost p.no_nul)

  header_length-behind :
      (rest : Bytes) → header_length (head ++ (crlf2 ++ rest)) ≡ some (length head + 4)
  unfolding header_length
  header_length-behind rest =
      rw (header_length, c_string-behind, find-crlf2 head (c_string rest) p.no_crlf2) refl

  left_over : (rest : Bytes) → length (head ++ (crlf2 ++ rest)) - (length head + 4) ≡ length rest
  left_over rest = omega (arith, length-append head (crlf2 ++ rest))

  response_complete-behind :
      (rest : Bytes) → response_complete (head ++ (crlf2 ++ rest)) ≡ leb n (length rest)
  unfolding response_complete
  response_complete-behind rest =
      rw (response_complete, header_length-behind rest, p.announces rest, left_over rest) refl

  response_complete-Before :
      (mem : Bytes) → Before mem (head ++ almost) → response_complete mem ≡ false
  unfolding response_complete
  response_complete-Before mem b = rw (response_complete, header_length-Before mem b) refl

  drop-behind : (rest : Bytes) → drop (length head + 4) (head ++ (crlf2 ++ rest)) ≡ rest
  drop-behind rest =
      ap₂ drop (omega (arith, length-append head crlf2)) (sym (append_assoc head crlf2 rest))
      ∙ drop-append_length (head ++ crlf2) rest

  pub strip_headers-behind : (rest : Bytes) → strip_headers (head ++ (crlf2 ++ rest)) ≡ rest
  unfolding strip_headers
  strip_headers-behind rest = rw (strip_headers, header_length-behind rest) (drop-behind rest)

  less : (k : ℕ) → k < n → leb n k ≡ false
  less k h = ground arith

  inside_body :
      (x mem more body : Bytes)
      → mem ≡ (head ++ almost) ++ x
      → x ++ more ≡ 10 ∷ body
      → length body ≤ n
      → 0 < length more
      → response_complete mem ≡ false
  inside_body [] mem more body at left short some_more =
      response_complete-Before mem
        (record { more = []; at = append-nil mem ∙ at ∙ append-nil (head ++ almost) })
  inside_body (c ∷ q) mem more body at left short some_more =
      let (newline, rest) = cons-eq c 10 (q ++ more) body left in
      ap response_complete
        (at ∙ ap (λ d. (head ++ almost) ++ d ∷ q) newline ∙ append_assoc head almost (10 ∷ q))
      ∙ response_complete-behind q
      ∙ less (length q) (omega (arith, length-append q more, ap length rest))

  -- What comes before the last byte is not complete.
  response_complete-part :
      (mem more body : Bytes)
      → length body ≤ n
      → 0 < length more
      → mem ++ more ≡ head ++ (crlf2 ++ body)
      → response_complete mem ≡ false
  response_complete-part mem more body short some_more e =
      elim (split-cases mem more (head ++ almost) (10 ∷ body)
        (e ∙ sym (append_assoc head almost (10 ∷ body)))) [
          | inl b ↦ response_complete-Before mem b
          | inr i ↦ inside_body i.more mem more body i.at i.left short some_more
        ]

-- The events bring the bytes, in pieces of any size, with calls to repeat in between; what happens later
-- is open.
pub data Brings : List Event → Bytes → Type 0 where
  all : (events : List Event) → Brings events []
  piece :
      (buf : Bytes) (events : List Event) (rest : Bytes)
      → Brings events rest
      → Brings (received buf ∷ events) (buf ++ rest)
  again :
      (events : List Event) (rest : Bytes) → Brings events rest → Brings (interrupted ∷ events) rest

module _ (head body : Bytes) (p : IsHead head (length body)) where
  whole_complete : response_complete (head ++ (crlf2 ++ body)) ≡ true
  whole_complete = response_complete-behind head (length body) p body ∙ ground arith

  receive-whole :
      (events : List Event) (rest mem : Bytes)
      → Brings events rest
      → 0 < length rest
      → mem ++ rest ≡ head ++ (crlf2 ++ body)
      → receive events mem ≡ some (head ++ (crlf2 ++ body))
  unfolding receive
  receive-whole _ _ mem (all events) h e = elim h [ ]
  receive-whole _ _ mem (again events rest b) h e = receive-whole events rest mem b h e
  receive-whole _ _ mem (piece buf events [] b) h e =
      rw (receive, ap (λ t. mem ++ t) (sym (append-nil buf)) ∙ e, whole_complete) refl
  receive-whole _ _ mem (piece buf events (c ∷ rest) b) h e =
      let seen = append_assoc mem buf (c ∷ rest) ∙ e in
      rw
        (
          receive,
          response_complete-part head (length body) p (mem ++ buf) (c ∷ rest) body (omega arith)
              (omega arith) seen,
        )
        (receive-whole events (c ∷ rest) (mem ++ buf) b (omega arith) seen)

  -- An answer with a head of its own and as many bytes behind the first blank line as it announces, at
  -- least one, is received as its body, in whatever pieces it arrives and whatever comes after it.
  pub read_response-whole :
      (events : List Event)
      → Brings events (head ++ (crlf2 ++ body))
      → 0 < length body
      → read_response events ≡ some (pos 0, body)
  unfolding read_response
  read_response-whole events b h =
      rw
        (
          read_response,
          receive-whole events (head ++ (crlf2 ++ body)) [] b
              (omega (arith, length-append head (crlf2 ++ body))) refl,
          strip_headers-behind head (length body) p body,
          lt→ltb 0 (length body) h,
        )
        refl

module _ (head : Bytes) (n : ℕ) (p : IsHead head n) where
  -- Where the host falls silent after at least one byte of the body, what arrived is the body and the
  -- request has succeeded, however much was announced.
  pub read_response-cut :
      (part : Bytes) (events : List Event)
      → 0 < length part
      → read_response (received (head ++ (crlf2 ++ part)) ∷ timed_out ∷ events) ≡ some (pos 0, part)
  unfolding read_response receive
  read_response-cut part events h =
      elim (Bool-cases (response_complete (head ++ (crlf2 ++ part)))) [
        | inl c ↦
            rw
              (
                read_response,
                receive,
                c,
                strip_headers-behind head n p part,
                lt→ltb 0 (length part) h,
              )
              refl
        | inr c ↦
            rw
              (
                read_response,
                receive,
                c,
                strip_headers-behind head n p part,
                lt→ltb 0 (length part) h,
              )
              refl
      ]
