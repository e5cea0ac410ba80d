-- ===== src/Client/Status/Reads.antt =====
-- What `load_server_status` takes from a well-formed answer.
use moonlight_wii.Prelude.{◌≡◌, refl, false, some, List}
use mathlib.Core.Path.{fun_ext}
use moonlight_wii.Prelude.Text.{Bytes, codes}
use moonlight_wii.Errors.{gs_ok, is_error}
use moonlight_wii.Xml.{Document, xml_status}
use moonlight_wii.Xml.Lists.{DisplayMode, xml_modelist}
use moonlight_wii.Xml.Search.{Forest, flatten, text_within, xml_search-flatten}
use moonlight_wii.Client.{Server, done, ret, update}
use moonlight_wii.Client.Status.{
  is_empty, store_status, search_or_end, hostname_of, modes_or_end, read_status,
}

-- The text of an element of the answer.
abbrev pub field : Forest → Bytes → Bytes
field f name = text_within name false f

-- The server's data as the answer describes it.
abbrev pub described : Forest → List DisplayMode → Server → Server
described f modes s =
    store_status (field f (codes "currentgame")) (field f (codes "PairStatus"))
      (field f (codes "appversion")) (field f (codes "state"))
      (field f (codes "ServerCodecModeSupport"))
      (record s {
        uuid = some (field f (codes "uniqueid"));
        mac = some (field f (codes "mac"));
        hostname = some (field f (codes "hostname"));
        gpu_type = some (field f (codes "gputype"));
        gs_version = some (field f (codes "GsVersion"));
        gfe_version = some (field f (codes "GfeVersion"));
        app_version = some (field f (codes "appversion"));
        modes = modes;
      })

search_or_end-flatten :
    (f : Forest) (name : Bytes) → search_or_end (some (flatten f)) name ≡ ret (field f name)
unfolding search_or_end
search_or_end-flatten f name = fun_ext (λ s. rw (xml_search-flatten f name, search_or_end) refl)

hostname_of-flatten :
    (f : Forest) → hostname_of (some (flatten f)) ≡ λ (s : Server). field f (codes "hostname")
unfolding hostname_of
hostname_of-flatten f =
    fun_ext (λ s. rw (xml_search-flatten f (codes "hostname"), hostname_of) refl)

modes_or_end-found :
    (d : Document) (modes : List DisplayMode)
    → xml_modelist d ≡ (gs_ok, some modes)
    → modes_or_end d ≡ update (λ s. record s { modes = modes })
unfolding modes_or_end
modes_or_end-found d modes m = fun_ext (λ s. rw (m, modes_or_end) refl)

-- A well-formed answer without an error status, in which the four fields that every host sends are not
-- empty, is taken over field by field.
pub read_status-flatten :
    (f : Forest) (modes : List DisplayMode) (s : Server)
    → is_error (xml_status (some (flatten f))) ≡ false
    → xml_modelist (some (flatten f)) ≡ (gs_ok, some modes)
    → is_empty (field f (codes "currentgame")) ≡ false
    → is_empty (field f (codes "PairStatus")) ≡ false
    → is_empty (field f (codes "appversion")) ≡ false
    → is_empty (field f (codes "state")) ≡ false
    → read_status (some (flatten f)) s ≡ (done tt, described f modes s)
unfolding read_status
read_status-flatten f modes s ok m game pair version state =
    rw
      (
        ok,
        search_or_end-flatten f (codes "uniqueid"),
        search_or_end-flatten f (codes "mac"),
        search_or_end-flatten f (codes "currentgame"),
        search_or_end-flatten f (codes "PairStatus"),
        search_or_end-flatten f (codes "appversion"),
        search_or_end-flatten f (codes "state"),
        search_or_end-flatten f (codes "ServerCodecModeSupport"),
        search_or_end-flatten f (codes "gputype"),
        search_or_end-flatten f (codes "GsVersion"),
        search_or_end-flatten f (codes "GfeVersion"),
        modes_or_end-found (some (flatten f)) modes m,
        game,
        pair,
        version,
        state,
        hostname_of-flatten f,
      )
      refl
