-- ===== src/Xml.antt =====
-- libgamestream/xml.c: the expat handlers that read the host's answers. Expat itself is outside the
-- program: a document is the list of the calls that it makes, or `none` where XML_Parse fails.
-- Allocation is taken to succeed.
pub mod Search
pub mod Lists
pub mod Apps
mod Tests
use moonlight_wii.Prelude.{
  Bool, false, Option, none, some, List, [], ◌∷◌, ◌++◌, ◌==◌, if◌then◌else◌,
}
use moonlight_wii.Prelude.Int.{ℤ, pos, negsuc, ◌+ℤ◌, ◌-ℤ◌, ltb_ℤ}
use moonlight_wii.Prelude.Text.{Bytes, codes, str_eq}
use moonlight_wii.Prelude.Decimal.{atoi}
use moonlight_wii.Errors.{gs_ok, gs_error, gs_invalid}

-- A call of a handler: an element opens with its attributes, closes, or a piece of text comes.
pub data Event : Type 0 where
  start : Bytes → List (Bytes × Bytes) → Event
  end : Bytes → Event
  cdata : Bytes → Event

abbrev pub Document : Type 0
Document = Option (List Event)

-- `struct xml_query` of a search; `size` is the length of `memory`, and `none` is NULL.
pub record Query : Type 0 where
  pub memory : Option Bytes
  pub open_count : ℤ

-- `write_cdata`
unfoldable pub write_cdata : Bytes → Query → Query
write_cdata s q =
    if ltb_ℤ (pos 0) q.open_count
    then record q { memory = elim q.memory [ none ↦ some s | some m ↦ some (m ++ s) ] }
    else q

-- `start_element` and `end_element`
unfoldable pub search_event : Bytes → Event → Query → Query
unfolding write_cdata ◌+ℤ◌ ◌-ℤ◌
search_event node (start name attributes) q =
    if str_eq node name then record q { open_count = q.open_count +ℤ pos 1 } else q
search_event node (end name) q =
    if str_eq node name then record q { open_count = q.open_count -ℤ pos 1 } else q
search_event node (cdata s) q = write_cdata s q

unfoldable pub search_events : Bytes → List Event → Query → Query
search_events node [] q = q
search_events node (e ∷ es) q = search_events node es (search_event node e q)

-- What is left in `memory` at the end. Without `required` it began as a string and is never NULL.
abbrev pub search_result : Query → ℤ × Option Bytes
search_result q = elim q.memory [ none ↦ (gs_invalid, none) | some m ↦ (gs_ok, some m) ]

-- The status and what is stored in `*result`; on an error nothing is stored.
unfoldable pub xml_search_ex : Document → Bytes → Bool → ℤ × Option Bytes
xml_search_ex none node required = (gs_invalid, none)
xml_search_ex (some events) node required = search_result (
    search_events node events
      (record { memory = if required then none else some []; open_count = pos 0 }))

unfoldable pub xml_search : Document → Bytes → ℤ × Option Bytes
unfolding xml_search_ex
xml_search d node = xml_search_ex d node false

-- The loop of `start_status_element` over the attributes: only "status_code" changes the status.
unfoldable pub status_attributes : List (Bytes × Bytes) → ℤ → ℤ
unfolding atoi str_eq
status_attributes [] status = status
status_attributes ((key, value) ∷ rest) status =
    status_attributes rest (if str_eq (codes "status_code") key then atoi value else status)

unfoldable pub status_events : List Event → ℤ → ℤ
unfolding status_attributes str_eq
status_events [] status = status
status_events (start name attributes ∷ es) status =
    status_events es
      (if str_eq (codes "root") name then status_attributes attributes status else status)
status_events (end name ∷ es) status = status_events es status
status_events (cdata s ∷ es) status = status_events es status

abbrev pub is_status_ok : ℤ → Bool
is_status_ok (pos n) = n == 200
is_status_ok (negsuc n) = false

unfoldable pub xml_status : Document → ℤ
unfolding status_events
xml_status none = gs_invalid
xml_status (some events) = if is_status_ok (status_events events (pos 0)) then gs_ok else gs_error
