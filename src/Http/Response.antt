-- ===== src/Http/Response.antt =====
-- libgamestream/http.c: how a response is received.
use moonlight_wii.Prelude.{
  ℕ, zero, suc, ◌+◌, ◌-◌, Bool, true, false, Option, none, some, List, [], ◌∷◌, ◌++◌, ◌&&◌, ◌||◌,
  ◌==◌, ltb, leb, if◌then◌else◌, length, drop,
}
use moonlight_wii.Prelude.Int.{ℤ, pos, negsuc}
use moonlight_wii.Prelude.Text.{Bytes, codes, is_prefix, c_string}
use moonlight_wii.Prelude.Decimal.{atoi}

-- strstr(s, pattern) - s for a pattern that is not empty, or `none` for NULL.
unfoldable pub find : Bytes → Bytes → Option ℕ
unfolding is_prefix
find pattern [] = none
find pattern (c ∷ s) =
    let rest = find pattern s in
    if is_prefix pattern (c ∷ s) then some 0 else elim rest [ none ↦ none | some i ↦ some (suc i) ]

abbrev pub crlf2 : Bytes
crlf2 = codes "\r\n\r\n"

abbrev pub lf2 : Bytes
lf2 = codes "\n\n"

-- Where the body begins, in `strip_headers` and in `response_complete`.
unfoldable pub header_length : Bytes → Option ℕ
unfolding find c_string
header_length mem = elim (find crlf2 (c_string mem)) [
  | some i ↦ some (i + 4)
  | none ↦ elim (find lf2 (c_string mem)) [ some i ↦ some (i + 2) | none ↦ none ]
]

unfoldable pub strip_headers : Bytes → Bytes
unfolding header_length
strip_headers mem = elim (header_length mem) [ none ↦ mem | some n ↦ drop n mem ]

abbrev to_lower : ℕ → ℕ
to_lower c = if leb b'A' c && leb c b'Z' then c + 32 else c

-- Whether the pattern stands here, in letters of either case.
unfoldable pub matches : Bytes → Bytes → Bool
matches [] s = true
matches (c ∷ pattern) [] = false
matches (c ∷ pattern) (d ∷ s) = to_lower d == c && matches pattern s

-- while (*p == ' ' || *p == '\t' || *p == ':')
unfoldable pub skip_separators : Bytes → Bytes
skip_separators [] = []
skip_separators (c ∷ s) =
    let rest = skip_separators s in if c == b' ' || c == 9 || c == b':' then rest else c ∷ s

-- The loop over `n` positions; a `long` has the bits of an `int`.
unfoldable pub content_length_at : ℕ → Bytes → ℤ
unfolding matches skip_separators atoi
content_length_at zero s = negsuc 0
content_length_at (suc n) [] = negsuc 0
content_length_at (suc n) (c ∷ s) =
    let rest = content_length_at n s in
    if matches (codes "content-length") (c ∷ s)
    then atoi (skip_separators (drop 14 (c ∷ s)))
    else rest

unfoldable pub parse_content_length : Bytes → ℕ → ℤ
unfolding content_length_at
parse_content_length headers len = content_length_at (len - 13) headers

-- Whether `received` bytes behind the headers are as many as were announced.
abbrev pub enough : ℕ → ℤ → Bool
enough received (pos n) = leb n received
enough received (negsuc n) = false

unfoldable pub response_complete : Bytes → Bool
unfolding header_length parse_content_length
response_complete mem = elim (header_length mem) [
  | none ↦ false
  | some n ↦ enough (length mem - n) (parse_content_length mem n)
]

-- What select and recv come to: bytes, which are put into memory or find none, a call to repeat, or the
-- end of the loop (an error, the end of the stream, or the timeout).
pub data Event : Type 0 where
  received : Bytes → Event
  no_memory : Bytes → Event
  interrupted : Event
  finished : Event
  timed_out : Event

-- The loop of `read_response`, with the memory that `data` holds; `none` while it waits for more.
unfoldable pub receive : List Event → Bytes → Option Bytes
unfolding response_complete
receive [] mem = none
receive (received buf ∷ events) mem =
    let rest = receive events (mem ++ buf) in
    if response_complete (mem ++ buf) then some (mem ++ buf) else rest
receive (no_memory buf ∷ events) mem = some mem
receive (interrupted ∷ events) mem = receive events mem
receive (finished ∷ events) mem = some mem
receive (timed_out ∷ events) mem = some mem

-- The code, and the body that is left in `data`. The memory is emptied first.
unfoldable pub read_response : List Event → Option (ℤ × Bytes)
unfolding receive strip_headers
read_response events = elim (receive events []) [
  | none ↦ none
  | some mem ↦
      let body = strip_headers mem in some (if ltb 0 (length body) then pos 0 else negsuc 0, body)
]
