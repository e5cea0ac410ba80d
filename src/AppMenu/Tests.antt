-- ===== src/AppMenu/Tests.antt =====
-- src/main.c: runs.
use moonlight_wii.Prelude.{ℕ, ◌+◌, ◌^◌, ◌≡◌, refl, true, false, some, [], ◌∷◌, List, arith, Option}
use moonlight_wii.Prelude.Int.{ℤ, pos, negsuc}
use moonlight_wii.Prelude.Text.{Bytes, codes}
use moonlight_wii.Errors.{gs_ok}
use moonlight_wii.Xml.{Document, xml_status}
use moonlight_wii.Xml.Search.{Forest, nil, element, flatten}
use moonlight_wii.Xml.Lists.{App, xml_applist}
use moonlight_wii.Client.{Client, http_request}
use moonlight_wii.Client.Requests.{gs_applist}
use moonlight_wii.Client.Tests.{host, meeting, root, leaf, keys}
use moonlight_wii.Config.{defaults}
use moonlight_wii.AppMenu.{StreamInput, find_app_id, gamepad_mask}
use moonlight_wii.AppMenu.Laws.{find_app_id-IsFirst, IsFirst, gamepad_mask_pow}
use moonlight_wii.AppMenu.Settings.{Selection, settings_menu}
use moonlight_wii.AppMenu.Chosen.{as_chosen}
use moonlight_wii.AppMenu.Saved.{AllFit, settings_menu-restored}
use moonlight_wii.Config.Tests.{sample, sample-IsSavable}
use moonlight_wii.Config.Numbers.{FitsInt}
use moonlight_wii.Config.Parse.{parsed, config_file_parse}
use moonlight_wii.Config.Save.{config_save}
use moonlight_wii.Config.RoundTrip.{restored}
use moonlight_wii.AppMenu.Turns.{Turn, MenuState, main_menu}
use moonlight_wii.AppMenu.Order.{Proper, main_menu-Proper}

abbrev desktop : App
desktop = record { name = some (codes "Desktop"); id = pos 7; hdr = pos 0 }

abbrev steam : App
steam = record { name = some (codes "Steam"); id = pos 12; hdr = pos 0 }

abbrev offer : Bytes → Bytes → Forest → Forest
offer name id rest =
    element (codes "App") [] (leaf (codes "AppTitle") name (leaf (codes "ID") id nil)) rest

-- The list is built from its end.
abbrev two_apps : Document
two_apps = some (
    flatten (
      root (codes "200")
        (offer (codes "Desktop") (codes "7") (offer (codes "Steam") (codes "12") nil))))

abbrev input : ℤ → StreamInput
input sel = record {
  sel = sel;
  want_main_menu = false;
  controllers = 1;
  launch = keys;
  connects = true;
}

abbrev offering : Client
offering = meeting ((gs_ok, two_apps) ∷ [])

abbrev afterwards : Client
afterwards = (gs_applist host offering).1

offered : gs_applist host offering ≡ ((gs_ok, some (steam ∷ desktop ∷ [])), afterwards)
unfolding gs_applist http_request xml_status flatten xml_applist
offered = refl

find_app_id-IsFirst_example :
    IsFirst
      (codes "Desktop")
      (steam ∷ desktop ∷ [])
      (find_app_id (steam ∷ desktop ∷ []) (codes "Desktop"))
find_app_id-IsFirst_example = find_app_id-IsFirst (steam ∷ desktop ∷ []) (codes "Desktop")

gamepad_mask_pow_example : gamepad_mask 4 + 1 ≡ 2 ^ 4
gamepad_mask_pow_example = gamepad_mask_pow 4

abbrev select : ℕ → Turn
select sel = record {
  sel = pos sel;
  enters = true;
  reaches = true;
  found_paired = false;
  paired_after = true;
}

abbrev fresh : MenuState
fresh = record { connected = false; paired = false; has_address = false; running = true }

main_menu-Proper_example :
    Proper false false
      (main_menu true (select 0 ∷ select 1 ∷ select 0 ∷ select 4 ∷ select 3 ∷ []) fresh)
main_menu-Proper_example =
    main_menu-Proper true (select 0 ∷ select 1 ∷ select 0 ∷ select 4 ∷ select 3 ∷ []) fresh

-- The third resolution, 60 frames a second, and a list that is left with B.
abbrev chosen : List Selection
chosen = (pos 0, pos 2) ∷ (pos 1, pos 60) ∷ (pos 7, negsuc 0) ∷ (negsuc 0, pos 0) ∷ []

chosen-AllFit : AllFit chosen
unfolding FitsInt
chosen-AllFit = (omega arith, (omega arith, (omega arith, (omega arith, tt))))

abbrev written : Bytes → Option Bytes
written name = some (config_save (settings_menu chosen sample))

settings_menu-restored_example :
    config_file_parse written 1 (codes "moonlight.conf") defaults
    ≡ parsed (restored (as_chosen chosen sample))
settings_menu-restored_example =
    settings_menu-restored written 0 (codes "moonlight.conf") chosen sample chosen-AllFit
      sample-IsSavable refl
