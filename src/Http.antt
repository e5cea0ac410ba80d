-- ===== src/Http.antt =====
-- libgamestream/http.c: the client for HTTP. Sockets, mbedtls and allocation are its surroundings: what
-- they return is given to the functions.
pub mod Url
pub mod Response
pub mod RoundTrip
pub mod Search
pub mod Chunks
pub mod Request
mod Tests
use moonlight_wii.Prelude.{ℕ, suc, Option, none, some, [], ◌∷◌, ◌==◌, if◌then◌else◌}
use moonlight_wii.Prelude.Text.{Bytes}

-- strchr(s, c) - s, or `none` for NULL.
unfoldable pub index_of : ℕ → Bytes → Option ℕ
index_of c [] = none
index_of c (d ∷ s) =
    let rest = index_of c s in
    if d == c then some 0 else elim rest [ none ↦ none | some i ↦ some (suc i) ]
