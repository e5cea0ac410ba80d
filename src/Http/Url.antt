-- ===== src/Http/Url.antt =====
-- libgamestream/http.c: `parse_url`.
use moonlight_wii.Prelude.{
  ℕ, suc, Bool, true, false, Option, none, some, [], ◌∷◌, ◌==◌, ltb, leb, if◌then◌else◌, length,
  take, drop,
}
use moonlight_wii.Prelude.Int.{ℤ, pos}
use moonlight_wii.Prelude.Text.{Bytes, codes}
use moonlight_wii.Prelude.Decimal.{atoi}
use moonlight_wii.Http.{index_of}

-- What `parse_url` stores.
pub record Url : Type 0 where
  pub is_https : Bool
  pub host : Bytes
  pub port : ℤ
  pub path : Bytes

-- What is behind a prefix that strncmp finds.
unfoldable pub strip_prefix : Bytes → Bytes → Option Bytes
strip_prefix [] t = some t
strip_prefix (c ∷ s) [] = none
strip_prefix (c ∷ s) (d ∷ t) = let rest = strip_prefix s t in if c == d then rest else none

-- colon < hostEnd, where the latter may be NULL.
abbrev pub leads : ℕ → Option ℕ → Bool
leads colon none = true
leads colon (some host_end) = ltb colon host_end

-- Where the host ends that has no port, and where the path begins.
abbrev pub host_or : ℕ → Option ℕ → ℕ
host_or otherwise none = otherwise
host_or otherwise (some host_end) = host_end

-- The length of the host, and the port: without a port in the text, and in general.
abbrev pub plain_host : Bool → Bytes → Option ℕ → ℕ × ℤ
plain_host is_https p host_end = (host_or (length p) host_end, if is_https then pos 443 else pos 80)

unfoldable pub parse_host : Bool → Bytes → Option ℕ → Option ℕ → ℕ × ℤ
unfolding atoi
parse_host is_https p none host_end = plain_host is_https p host_end
parse_host is_https p (some colon) host_end =
    if leads colon host_end
    then (colon, atoi (drop (suc colon) p))
    else plain_host is_https p host_end

-- The buffers have 256 and 4096 characters.
unfoldable pub store_url : Bool → Bytes → Option ℕ → ℕ × ℤ → Option Url
store_url is_https p host_end h =
    let path = drop (host_or h.0 host_end) p in
    if leb 256 h.0
    then none
    else if leb 4096 (length path)
    then none
    else some (record { is_https = is_https; host = take h.0 p; port = h.1; path = path })

-- What is behind the scheme.
unfoldable pub parse_rest : Bool → Bytes → Option Url
unfolding parse_host store_url index_of
parse_rest is_https p =
    let host_end = index_of b'/' p in
    store_url is_https p host_end (parse_host is_https p (index_of b':' p) host_end)

unfoldable pub parse_url : Bytes → Option Url
unfolding parse_rest strip_prefix
parse_url url = elim (strip_prefix (codes "https://") url) [
  | some p ↦ parse_rest true p
  | none ↦ elim (strip_prefix (codes "http://") url) [ some p ↦ parse_rest false p | none ↦ none ]
]
