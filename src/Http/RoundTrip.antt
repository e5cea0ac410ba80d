-- ===== src/Http/RoundTrip.antt =====
-- libgamestream/http.c and client.c: `parse_url` takes apart what `construct_url` puts together.
use moonlight_wii.Prelude.{
  ℕ, zero, suc, ◌+◌, ◌-◌, ◌≤◌, ◌<◌, ◌≡◌, refl, sym, ap, ap₂, ◌∙◌, Bool, true, false, not, ◌&&◌,
  Option, none, some, [], ◌∷◌, ◌++◌, append_assoc, ◌==◌, if◌then◌else◌, length, length-append, take,
  drop, arith, lt→ltb,
}
use moonlight_wii.Prelude.Int.{pos}
use moonlight_wii.Prelude.Text.{Bytes, codes}
use moonlight_wii.Prelude.Decimal.{atoi, print_nat}
use moonlight_wii.Client.{construct_url, fit}
use moonlight_wii.Http.{index_of}
use moonlight_wii.Http.Url.{strip_prefix, parse_host, store_url, parse_rest, parse_url}

unfoldable pub lacks : ℕ → Bytes → Bool
lacks c [] = true
lacks c (d ∷ s) = not (d == c) && lacks c s

index_of-append :
    (c : ℕ) (s t : Bytes) → lacks c s ≡ true → index_of c (s ++ c ∷ t) ≡ some (length s)
unfolding index_of lacks
index_of-append c [] t h = ground arith
index_of-append c (d ∷ s) t h = ground (arith, index_of-append c s t)

lacks-append : (c : ℕ) (s t : Bytes) → lacks c s ≡ true → lacks c t ≡ true → lacks c (s ++ t) ≡ true
unfolding lacks
lacks-append c [] t hs ht = ht
lacks-append c (d ∷ s) t hs ht = ground (arith, lacks-append c s t)

take-append_length : (s t : Bytes) → take (length s) (s ++ t) ≡ s
take-append_length [] t = refl
take-append_length (c ∷ s) t = ap (λ r. c ∷ r) (take-append_length s t)

pub drop-append_length : (s t : Bytes) → drop (length s) (s ++ t) ≡ t
drop-append_length [] t = refl
drop-append_length (c ∷ s) t = drop-append_length s t

drop-append_suc : (s : Bytes) (c : ℕ) (t : Bytes) → drop (suc (length s)) (s ++ c ∷ t) ≡ t
drop-append_suc [] c t = refl
drop-append_suc (d ∷ s) c t = drop-append_suc s c t

-- `construct_url` behind the slash, and the whole of it.
unfoldable pub target : Bytes → Bytes → Bytes → Option Bytes → Bytes
target unique_id uuid action params =
    action
    ++ (codes "?uniqueid="
        ++ (unique_id
            ++ (codes "&uuid="
                ++ (take 36 uuid
                    ++ (elim params [ none ↦ [] | some p ↦ codes "&" ++ fit 4096 p ])))))

abbrev pub port_of : Bool → ℕ
port_of secure = if secure then 47984 else 47989

unfoldable pub whole : Bool → Bytes → Bytes → Bytes
whole secure address rest =
    (if secure then codes "https" else codes "http")
    ++ (codes "://" ++ (address ++ b':' ∷ (print_nat (port_of secure) ++ b'/' ∷ rest)))

take-all : (n : ℕ) (s : Bytes) → length s ≤ n → take n s ≡ s
take-all zero [] h = refl
take-all zero (c ∷ s) h = elim h [ ]
take-all (suc n) [] h = refl
take-all (suc n) (c ∷ s) h = ap (λ r. c ∷ r) (take-all n s (omega arith))

construct_url-whole :
    (unique_id uuid : Bytes) (ulen : ℕ) (secure : Bool) (address action : Bytes)
    (params : Option Bytes)
    → construct_url unique_id uuid ulen secure address action params
      ≡ fit ulen (whole secure address (target unique_id uuid action params))
unfolding construct_url whole target
construct_url-whole unique_id uuid ulen secure address action params =
    ap (fit ulen) (simp append_assoc)

-- The host, the port and the path of what is behind the scheme.
module _ (secure : Bool) (address rest : Bytes) where
  abbrev port_text : Bytes
  port_text = print_nat (port_of secure)

  abbrev behind : Bytes
  behind = address ++ b':' ∷ (port_text ++ b'/' ∷ rest)

  atoi-port : (s : Bool) → atoi (print_nat (port_of s) ++ b'/' ∷ rest) ≡ pos (port_of s)
  unfolding atoi print_nat
  atoi-port true = refl
  atoi-port false = refl

  lacks-port : (s : Bool) → lacks b'/' (b':' ∷ print_nat (port_of s)) ≡ true
  unfolding lacks print_nat
  lacks-port true = refl
  lacks-port false = refl

  behind_split : behind ≡ (address ++ b':' ∷ port_text) ++ b'/' ∷ rest
  behind_split = sym (append_assoc address (b':' ∷ port_text) (b'/' ∷ rest))

  abbrev host_end : ℕ
  host_end = length (address ++ b':' ∷ port_text)

  index_of-slash : lacks b'/' address ≡ true → index_of b'/' behind ≡ some host_end
  index_of-slash h =
      ap (index_of b'/') behind_split
      ∙ index_of-append b'/' (address ++ b':' ∷ port_text) rest
          (lacks-append b'/' address (b':' ∷ port_text) h (lacks-port secure))

  parse_host-behind :
      parse_host secure behind (some (length address)) (some host_end)
      ≡ (length address, pos (port_of secure))
  unfolding parse_host
  parse_host-behind =
      rw
        (
          parse_host,
          lt→ltb (length address) host_end
              (omega (arith, length-append address (b':' ∷ port_text))),
          drop-append_suc address b':' (port_text ++ b'/' ∷ rest),
          atoi-port secure,
        )
        refl

  store_url-behind :
      length address < 256
      → length rest + 1 < 4096
      → store_url secure behind (some host_end) (length address, pos (port_of secure))
        ≡ some (record {
          is_https = secure;
          host = address;
          port = pos (port_of secure);
          path = b'/' ∷ rest;
        })
  unfolding store_url
  store_url-behind short fits =
      rw
        (
          store_url,
          ap (drop host_end) behind_split
              ∙ drop-append_length (address ++ b':' ∷ port_text) (b'/' ∷ rest),
          take-append_length address (b':' ∷ (port_text ++ b'/' ∷ rest)),
        )
        (ground arith)

  parse_rest-behind :
      lacks b':' address ≡ true
      → lacks b'/' address ≡ true
      → length address < 256
      → length rest + 1 < 4096
      → parse_rest secure behind
        ≡ some (record {
          is_https = secure;
          host = address;
          port = pos (port_of secure);
          path = b'/' ∷ rest;
        })
  unfolding parse_rest
  parse_rest-behind colon slash short fits =
      ap₂ (λ c h. store_url secure behind h (parse_host secure behind c h))
        (index_of-append b':' address (port_text ++ b'/' ∷ rest) colon) (index_of-slash slash)
      ∙ ap (store_url secure behind (some host_end)) parse_host-behind
      ∙ store_url-behind short fits

parse_url-whole :
    (secure : Bool) (address rest : Bytes)
    → parse_url (whole secure address rest) ≡ parse_rest secure (behind secure address rest)
unfolding parse_url whole strip_prefix
parse_url-whole true address rest = refl
parse_url-whole false address rest = refl

-- A URL that `construct_url` prints and that fits its buffer is taken apart into what it was made of:
-- the scheme, the address, the port of the scheme and the rest as the path, for an address of less than
-- 256 characters without ':' and '/' and a path of less than 4096 characters.
pub parse_url-construct_url :
    (unique_id uuid : Bytes) (ulen : ℕ) (secure : Bool) (address action : Bytes)
    (params : Option Bytes)
    → length (whole secure address (target unique_id uuid action params)) ≤ ulen - 1
    → lacks b':' address ≡ true
    → lacks b'/' address ≡ true
    → length address < 256
    → length (target unique_id uuid action params) + 1 < 4096
    → parse_url (construct_url unique_id uuid ulen secure address action params)
      ≡ some (record {
        is_https = secure;
        host = address;
        port = pos (port_of secure);
        path = b'/' ∷ target unique_id uuid action params;
      })
parse_url-construct_url unique_id uuid ulen secure address action params room colon slash short
      fits =
    let rest = target unique_id uuid action params in
    ap parse_url (
      construct_url-whole unique_id uuid ulen secure address action params
      ∙ take-all (ulen - 1) (whole secure address rest) room)
    ∙ parse_url-whole secure address rest
    ∙ parse_rest-behind secure address rest colon slash short fits
