-- ===== src/Xml/Apps.antt =====
-- The list that `xml_applist` builds from an answer of the host.
use moonlight_wii.Prelude.{ℕ, ◌≤◌, ◌≡◌, refl, ap, ap₂, ◌∙◌, true, false, some, List, [], ◌∷◌}
use moonlight_wii.Prelude.Int.{ℤ, pos}
use moonlight_wii.Prelude.Text.{Bytes, codes, str_eq}
use moonlight_wii.Prelude.Decimal.{print_int, int_max, atoi-print_int_pos}
use moonlight_wii.Errors.{gs_ok}
use moonlight_wii.Xml.{Event, start, end, cdata}
use moonlight_wii.Xml.Lists.{Memory, null, App, AppQuery, frees_a_name, applist_events, xml_applist}

-- An application as the host has it.
pub record Item : Type 0 where
  pub title : Bytes
  pub number : ℕ
  pub hdr_flag : ℕ

abbrev pub Fits : List Item → Type 0
Fits [] = Unit
Fits (i ∷ is) = (i.number ≤ int_max) × (i.hdr_flag ≤ int_max) × Fits is

abbrev pub field : Bytes → Bytes → List Event → List Event
field name value rest = start name [] ∷ cdata value ∷ end name ∷ rest

-- The events of one application, with the number last or with the title last.
abbrev pub number_last : Item → List Event → List Event
number_last i rest =
    start (codes "App") []
    ∷ field (codes "IsHdrSupported") (print_int (pos i.hdr_flag)) (
        field (codes "AppTitle") i.title
          (field (codes "ID") (print_int (pos i.number)) (end (codes "App") ∷ rest)))

abbrev pub title_last : Item → List Event → List Event
title_last i rest =
    start (codes "App") []
    ∷ field (codes "IsHdrSupported") (print_int (pos i.hdr_flag)) (
        field (codes "ID") (print_int (pos i.number))
          (field (codes "AppTitle") i.title (end (codes "App") ∷ rest)))

abbrev pub all_items : List Item → List Event
all_items [] = []
all_items (i ∷ is) = number_last i (all_items is)

abbrev pub app_of : Item → App
app_of i = record { name = some i.title; id = pos i.number; hdr = pos i.hdr_flag }

abbrev pub apps_onto : List App → List Item → List App
apps_onto apps [] = apps
apps_onto apps (i ∷ is) = apps_onto (app_of i ∷ apps) is

-- One application, read whatever the query held before.
read-number_last :
    (i : Item) (rest : List Event) (m : Memory) (apps : List App)
    → i.number ≤ int_max
    → i.hdr_flag ≤ int_max
    → applist_events (number_last i rest) (record { memory = m; started = false; apps = apps })
      ≡ applist_events rest (record { memory = null; started = false; apps = app_of i ∷ apps })
unfolding applist_events str_eq
read-number_last i rest m apps hn hh =
    ap₂
      (λ (h n : ℤ). applist_events rest (record {
        memory = null;
        started = false;
        apps = record { name = some i.title; id = n; hdr = h } ∷ apps;
      }))
      (atoi-print_int_pos i.hdr_flag hh) (atoi-print_int_pos i.number hn)

-- `null` is what an application's last field leaves behind, and what the query begins with.
applist_events-all_items :
    (is : List Item) (apps : List App)
    → Fits is
    → applist_events (all_items is) (record { memory = null; started = false; apps = apps })
      ≡ record { memory = null; started = false; apps = apps_onto apps is }
applist_events-all_items [] apps h = unfold applist_events in refl
applist_events-all_items (i ∷ is) apps h =
    read-number_last i (all_items is) null apps h.0 h.1
    ∙ applist_events-all_items is (app_of i ∷ apps) h.2

-- An answer in which each application's number comes last is read as the host's applications, the
-- last one first, with title, number and HDR flag; no name is freed.
pub xml_applist-all_items :
    (is : List Item)
    → Fits is
    → xml_applist (some (all_items is))
      ≡ record { status = gs_ok; list = some (apps_onto [] is); name_freed = false }
unfolding xml_applist
xml_applist-all_items is h =
    ap
      (λ (q : AppQuery). record {
        status = gs_ok;
        list = some q.apps;
        name_freed = frees_a_name q.memory;
      })
      (applist_events-all_items is [] h)

-- If the title is the last field of an application that ends the answer, the list comes out right but
-- the final `free` releases the name in it.
pub title_last-name_freed : (i : Item) → (xml_applist (some (title_last i []))).name_freed ≡ true
unfolding xml_applist applist_events str_eq
title_last-name_freed i = refl
