-- ===== src/Xml/Lists.antt =====
-- libgamestream/xml.c: the handlers that build the list of applications and of display modes. A linked
-- list is a `List`, its head first; allocation is taken to succeed.
use moonlight_wii.Prelude.{
  ℕ, ◌^◌, ◌-◌, ◌%◌, Bool, true, false, ◌||◌, Option, none, some, List, [], ◌∷◌, ◌++◌, if◌then◌else◌,
}
use moonlight_wii.Prelude.Int.{ℤ, pos, negsuc}
use moonlight_wii.Prelude.Text.{Bytes, codes, str_eq}
use moonlight_wii.Prelude.Decimal.{atoi}
use moonlight_wii.Errors.{gs_ok, gs_invalid}
use moonlight_wii.Xml.{Event, start, end, cdata, Document}

-- `search->memory`: NULL, a block of its own, or the block that an application's `name` points to.
pub data Memory : Type 0 where
  null : Memory
  block : Bytes → Memory
  given : Bytes → Memory

-- The text that the pointer leads to; the handlers read it only where it is not NULL.
unfoldable pub memory_text : Memory → Bytes
memory_text null = []
memory_text (block m) = m
memory_text (given m) = m

-- `APP_LIST`
pub record App : Type 0 where
  pub name : Option Bytes
  pub id : ℤ
  pub hdr : ℤ

-- `struct xml_query` of these handlers; `start` is only ever 0 or 1.
pub record AppQuery : Type 0 where
  pub memory : Memory
  pub started : Bool
  pub apps : List App

abbrev is_app_field : Bytes → Bool
is_app_field name =
    str_eq (codes "ID") name
    || str_eq (codes "AppTitle") name
    || str_eq (codes "IsHdrSupported") name

unfoldable pub start_applist_element : Bytes → AppQuery → AppQuery
start_applist_element name q =
    if str_eq (codes "App") name
    then record q { apps = record { name = none; id = pos 0; hdr = pos 0 } ∷ q.apps }
    else if is_app_field name
    then record q { memory = block []; started = true }
    else q

-- The rest of `end_applist_element`, at the head of the list.
unfoldable pub end_app_field : Bytes → App → List App → AppQuery → AppQuery
unfolding memory_text
end_app_field name app rest q =
    if str_eq (codes "ID") name
    then record {
      memory = null;
      started = false;
      apps = record app { id = atoi (memory_text q.memory) } ∷ rest;
    }
    else if str_eq (codes "AppTitle") name
    then record {
      memory = given (memory_text q.memory);
      started = false;
      apps = record app { name = some (memory_text q.memory) } ∷ rest;
    }
    else if str_eq (codes "IsHdrSupported") name
    then record {
      memory = null;
      started = false;
      apps = record app { hdr = atoi (memory_text q.memory) } ∷ rest;
    }
    else record q { started = false }

unfoldable pub end_applist_element : Bytes → AppQuery → AppQuery
unfolding end_app_field
end_applist_element name q =
    if q.started then elim q.apps [ [] ↦ q | app ∷ rest ↦ end_app_field name app rest q ] else q

-- `write_cdata`, on this query
unfoldable pub write_app_cdata : Bytes → AppQuery → AppQuery
unfolding memory_text
write_app_cdata s q =
    if q.started then record q { memory = block (memory_text q.memory ++ s) } else q

unfoldable pub applist_events : List Event → AppQuery → AppQuery
unfolding start_applist_element end_applist_element write_app_cdata
applist_events [] q = q
applist_events (start name attributes ∷ es) q = applist_events es (start_applist_element name q)
applist_events (end name ∷ es) q = applist_events es (end_applist_element name q)
applist_events (cdata s ∷ es) q = applist_events es (write_app_cdata s q)

-- The final `free(query.memory)` hits the name of an application in the list.
abbrev pub frees_a_name : Memory → Bool
frees_a_name (given m) = true
frees_a_name _ = false

pub record AppList : Type 0 where
  pub status : ℤ
  pub list : Option (List App)
  pub name_freed : Bool

unfoldable pub xml_applist : Document → AppList
unfolding applist_events
xml_applist none = record { status = gs_invalid; list = none; name_freed = false }
xml_applist (some events) =
    let q = applist_events events (record { memory = null; started = false; apps = [] }) in
    record { status = gs_ok; list = some q.apps; name_freed = frees_a_name q.memory }

-- `DISPLAY_MODE`; the fields are `unsigned int`.
pub record DisplayMode : Type 0 where
  pub width : ℕ
  pub height : ℕ
  pub refresh : ℕ

pub record ModeQuery : Type 0 where
  pub memory : Memory
  pub started : Bool
  pub modes : List DisplayMode

-- A `long` stored in an `unsigned int`.
abbrev pub to_unsigned : ℤ → ℕ
to_unsigned (pos n) = n
to_unsigned (negsuc n) = 2 ^ 32 - 1 - n % 2 ^ 32

abbrev is_mode_field : Bytes → Bool
is_mode_field name =
    str_eq (codes "Height") name || str_eq (codes "Width") name || str_eq (codes "RefreshRate") name

abbrev has_modes : ModeQuery → Bool
has_modes q = elim q.modes [ [] ↦ false | m ∷ rest ↦ true ]

unfoldable pub start_mode_element : Bytes → ModeQuery → ModeQuery
start_mode_element name q =
    if str_eq (codes "DisplayMode") name
    then record q { modes = record { width = 0; height = 0; refresh = 0 } ∷ q.modes }
    else if has_modes q
    then (if is_mode_field name then record q { memory = block []; started = true } else q)
    else q

abbrev set_mode_field : Bytes → ℕ → DisplayMode → DisplayMode
set_mode_field name n mode =
    if str_eq (codes "Width") name
    then record mode { width = n }
    else if str_eq (codes "Height") name
    then record mode { height = n }
    else if str_eq (codes "RefreshRate") name
    then record mode { refresh = n }
    else mode

unfoldable pub end_mode_element : Bytes → ModeQuery → ModeQuery
unfolding memory_text
end_mode_element name q =
    if q.started
    then elim q.modes [
      | [] ↦ q
      | mode ∷ rest ↦ record {
        memory = null;
        started = false;
        modes = set_mode_field name (to_unsigned (atoi (memory_text q.memory))) mode ∷ rest;
      }
    ]
    else q

unfoldable pub modelist_events : List Event → ModeQuery → ModeQuery
unfolding start_mode_element end_mode_element memory_text
modelist_events [] q = q
modelist_events (start name attributes ∷ es) q = modelist_events es (start_mode_element name q)
modelist_events (end name ∷ es) q = modelist_events es (end_mode_element name q)
modelist_events (cdata s ∷ es) q =
    modelist_events es
      (if q.started then record q { memory = block (memory_text q.memory ++ s) } else q)

unfoldable pub xml_modelist : Document → ℤ × Option (List DisplayMode)
unfolding modelist_events
xml_modelist none = (gs_invalid, none)
xml_modelist (some events) = (
  gs_ok,
  some (modelist_events events (record { memory = null; started = false; modes = [] })).modes,
)
