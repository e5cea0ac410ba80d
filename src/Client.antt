-- ===== src/Client.antt =====
-- libgamestream/client.c and client.h: what the GameStream calls share. A request is answered by the
-- next reply of the host, a code of `http_request` with the document that expat reads in the body.
-- `uuidstr_random` and allocation are taken to succeed; the texts of `gs_set_error` are left out, as
-- is what is only printed.
pub mod Status
pub mod Requests
pub mod Launch
pub mod Pair
pub mod Tests
use moonlight_wii.Prelude.{
  ℕ, suc, ◌+◌, ◌-◌, Bool, true, false, Option, none, some, List, [], ◌∷◌, ◌++◌, if◌then◌else◌, take,
  length, ltb,
}
use moonlight_wii.Prelude.Int.{ℤ}
use moonlight_wii.Prelude.Text.{Bytes, codes}
use moonlight_wii.Prelude.Decimal.{print_nat}
use moonlight_wii.Errors.{gs_ok, gs_failed, is_ok}
use moonlight_wii.Xml.{Document}
use moonlight_wii.Xml.Lists.{DisplayMode}

-- `SERVER_DATA` with the fields of `SERVER_INFORMATION` that the calls use; `none` is NULL.
pub record Server : Type 0 where
  pub address : Bytes
  pub uuid : Option Bytes
  pub mac : Option Bytes
  pub hostname : Option Bytes
  pub gpu_type : Option Bytes
  pub gs_version : Option Bytes
  pub gfe_version : Option Bytes
  pub app_version : Option Bytes
  pub rtsp_session_url : Option Bytes
  pub codec_mode_support : ℤ
  pub paired : Bool
  pub supports_4k : Bool
  pub supports_hdr : Bool
  pub unsupported : Bool
  pub is_gfe : Bool
  pub current_game : ℤ
  pub major_version : ℤ
  pub modes : List DisplayMode

-- `GS_CLIENT_T`, with the world that it meets: the replies to come, the URLs sent (the last one
-- first), the identifiers that `uuidstr_random` draws, and the pages stored by `gs_download_cover`.
pub record Client : Type 0 where
  pub unique_id : Bytes
  pub cert_hex : Bytes
  pub timeout : ℕ
  pub uuids : ℕ → Bytes
  pub drawn : ℕ
  pub replies : List (ℤ × Document)
  pub sent : List Bytes

-- What is left of a body that `goto cleanup` can end: its result, or `ret` at the jump.
pub data Outcome (A : Type 0) : Type 0 where
  done : A → Outcome A
  raised : ℤ → Outcome A

abbrev pub Exec : Type 0 → Type 0 → Type 0
Exec S A = S → Outcome A × S

abbrev pub then_run : {S A B : Type 0} → (A → Exec S B) → Outcome A → S → Outcome B × S
then_run k (done a) s = k a s
then_run k (raised e) s = (raised e, s)

infixl 5 ◌>>=◌ ◌>>◌
abbrev pub ◌>>=◌ : {S A B : Type 0} → Exec S A → (A → Exec S B) → Exec S B
(m >>= k) s = then_run k (m s).0 (m s).1

abbrev pub ◌>>◌ : {S B : Type 0} → Exec S (Unit {0}) → Exec S B → Exec S B
m >> k = m >>= λ _. k

abbrev pub ret : {S A : Type 0} → A → Exec S A
ret a s = (done a, s)

abbrev pub raise : {S A : Type 0} → ℤ → Exec S A
raise e s = (raised e, s)

abbrev pub update : {S : Type 0} → (S → S) → Exec S (Unit {0})
update f s = (done tt, f s)

abbrev pub fail_if : {S : Type 0} → Bool → ℤ → Exec S (Unit {0})
fail_if true e s = (raised e, s)
fail_if false e s = (done tt, s)

-- `ret` at the end of a body that leaves it at GS_OK.
abbrev pub code_of : {A : Type 0} → Outcome A → ℤ
code_of (done a) = gs_ok
code_of (raised e) = e

-- What a search stores, where it returns GS_OK.
abbrev pub found {ℓ} : {A : Type ℓ} → ℤ × Option A → Option A
found r = if is_ok r.0 then r.1 else none

-- snprintf(s, size, "%s", text)
abbrev pub fit : ℕ → Bytes → Bytes
fit size text = take (size - 1) text

-- `construct_url`; `none` is a NULL format. A uuid prints at most 36 characters.
unfoldable pub construct_url : Bytes → Bytes → ℕ → Bool → Bytes → Bytes → Option Bytes → Bytes
construct_url unique_id uuid ulen secure address action params = fit ulen (
    (if secure then codes "https" else codes "http")
    ++ codes "://"
    ++ address
    ++ codes ":"
    ++ print_nat (if secure then 47984 else 47989)
    ++ codes "/"
    ++ action
    ++ codes "?uniqueid="
    ++ unique_id
    ++ codes "&uuid="
    ++ take 36 uuid
    ++ elim params [ none ↦ [] | some p ↦ codes "&" ++ fit 4096 p ])

-- `append_param`: the URL is left alone where the parameter does not fit.
unfoldable pub append_param : ℕ → Bytes → Bytes → Bytes → Bytes
append_param ulen param value url =
    if ltb ulen (length url + (length param + length (fit 256 value) + 3))
    then url
    else url ++ b'&' ∷ param ++ b'=' ∷ fit 256 value

-- A URL for the next request; each draws one identifier.
unfoldable pub url_for : ℕ → Bool → Bytes → Bytes → Option Bytes → Client → Bytes
unfolding construct_url
url_for ulen secure address action params c =
    construct_url c.unique_id (c.uuids c.drawn) ulen secure address action params

-- `http_request` on a URL that was constructed; with no reply left the host is out of reach.
unfoldable pub http_request : Bytes → Client → (ℤ × Document) × Client
http_request url c = elim c.replies [
  | [] ↦ ((gs_failed, none), record c { sent = url ∷ c.sent; drawn = suc c.drawn })
  | r ∷ rs ↦ (r, record c { sent = url ∷ c.sent; drawn = suc c.drawn; replies = rs })
]

-- `gs_set_timeout`
unfoldable pub gs_set_timeout : ℕ → Client → Client
gs_set_timeout seconds c = record c { timeout = seconds }
