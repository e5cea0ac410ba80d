-- ===== src/Xml/Tests.antt =====
-- Runs of the XML handlers, and the theorems at concrete answers.
use moonlight_wii.Prelude.{◌≡◌, refl, false, some, List, [], ◌∷◌}
use moonlight_wii.Prelude.Text.{codes, str_eq}
use moonlight_wii.Errors.{gs_ok, gs_error}
use moonlight_wii.Xml.{xml_search, Event, start, end, xml_status}
use moonlight_wii.Xml.Search.{Forest, nil, element, text, flatten, text_within, xml_search-flatten}
use moonlight_wii.Xml.Apps.{Item}

abbrev steam : Item
steam = record { title = codes "Steam"; number = 12; hdr_flag = 0 }

abbrev desktop : Item
desktop = record { title = codes "Desktop"; number = 7; hdr_flag = 1 }

abbrev refused : List Event
refused = start (codes "root") ((codes "status_code", codes "401") ∷ []) ∷ end (codes "root") ∷ []

xml_status-refused : xml_status (some refused) ≡ gs_error
unfolding xml_status
xml_status-refused = refl

abbrev nested : Forest
nested =
    element (codes "root") []
      (text (codes "a") (
        element (codes "mac") []
          (text (codes "b") (element (codes "mac") [] (text (codes "c") nil) nil))
          (text (codes "d") nil)))
      nil

xml_search-flatten_example :
    xml_search (some (flatten nested)) (codes "mac")
    ≡ (gs_ok, some (text_within (codes "mac") false nested))
xml_search-flatten_example = xml_search-flatten nested (codes "mac")

text_within-nested : text_within (codes "mac") false nested ≡ codes "bc"
unfolding text_within str_eq
text_within-nested = refl
