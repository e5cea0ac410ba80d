-- ===== src/AppMenu.antt =====
-- src/main.c: starting a stream from the list of applications. What the menu answers, and what
-- LiStartConnection returns, is given; drawing and messages are left out.
pub mod Laws
pub mod Turns
pub mod Order
pub mod Settings
pub mod Chosen
pub mod Saved
mod Tests
use moonlight_wii.Prelude.{
  ℕ, zero, suc, ◌+◌, ◌*◌, Bool, true, false, not, Option, none, some, List, [], ◌∷◌, ltb,
  if◌then◌else◌,
}
use moonlight_wii.Prelude.Int.{ℤ, pos, negsuc}
use moonlight_wii.Prelude.Text.{Bytes, str_eq}
use moonlight_wii.Errors.{is_ok}
use moonlight_wii.Xml.Lists.{App}
use moonlight_wii.Client.{Server, Client}
use moonlight_wii.Client.Requests.{Answer, gs_applist, gs_quit_app}
use moonlight_wii.Client.Launch.{StreamConfig, LaunchInput, Launched, gs_start_app}
use moonlight_wii.Config.{Configuration}

abbrev pub is_negative : ℤ → Bool
is_negative (pos n) = false
is_negative (negsuc n) = true

-- Whether an application has the name; `none` is a NULL name.
abbrev pub has_name : Bytes → Option Bytes → Bool
has_name name none = false
has_name name (some s) = str_eq s name

unfoldable pub find_app_id : List App → Bytes → ℤ
find_app_id [] name = negsuc 0
find_app_id (a ∷ list) name =
    let rest = find_app_id list name in if has_name name a.name then a.id else rest

-- The loop of `do_stream` that goes to the selected application; it does not increment `i`.
unfoldable pub walk : ℕ → ℕ → List App → Option App
walk i sel [] = none
walk i sel (it ∷ next) = let rest = walk i sel next in if ltb i sel then rest else some it

-- The identifier for what `menu_select` returned.
unfoldable pub choose_app : List App → ℤ → Bytes → ℤ
unfolding walk find_app_id
choose_app list (pos sel) name = elim (walk 0 sel list) [ none ↦ negsuc 0 | some it ↦ it.id ]
choose_app list (negsuc n) name = find_app_id list name

-- A list that the host sent and that has an application.
abbrev pub non_empty : Option (List App) → Option (List App)
non_empty (some (a ∷ list)) = some (a ∷ list)
non_empty _ = none

unfoldable pub get_app_id : Server → Bytes → Client → ℤ × Client
unfolding gs_applist find_app_id
get_app_id s name c =
    let ((code, list), c') = gs_applist s c in
    (
      if is_ok code then elim list [ none ↦ negsuc 0 | some l ↦ find_app_id l name ] else negsuc 0,
      c',
    )

unfoldable pub gamepad_mask : ℕ → ℕ
gamepad_mask zero = 0
gamepad_mask (suc n) = gamepad_mask n * 2 + 1

-- How `do_stream` ends.
pub data StreamEnd : Type 0 where
  backed_out : StreamEnd
  no_app : StreamEnd
  not_started : ℤ → StreamEnd
  no_connection : StreamEnd
  streamed : StreamEnd

-- What the surroundings give: the menu's answer, the wish for the main menu, the number of controllers,
-- what gs_start_app takes from other libraries, and whether LiStartConnection returns 0.
pub record StreamInput : Type 0 where
  pub sel : ℤ
  pub want_main_menu : Bool
  pub controllers : ℕ
  pub launch : LaunchInput
  pub connects : Bool

pub record Streamed : Type 0 where
  pub result : StreamEnd
  pub server : Server
  pub client : Client

abbrev after_quit : Answer → Streamed
after_quit q = record { result = streamed; server = q.server; client = q.client }

-- The rest of `do_stream`, once `gs_start_app` has returned.
unfoldable pub run_stream : StreamInput → Configuration → Launched → Streamed
unfolding gs_quit_app
run_stream i config l =
    if is_negative l.code
    then record { result = not_started l.code; server = l.server; client = l.client }
    else if not i.connects
    then record { result = no_connection; server = l.server; client = l.client }
    else if config.quitappafter
    then after_quit (gs_quit_app l.server l.client)
    else record { result = streamed; server = l.server; client = l.client }

-- What follows the choice.
unfoldable pub start_stream :
    StreamInput → Configuration → StreamConfig → ℤ → Server → Client → Streamed
unfolding run_stream gs_start_app gamepad_mask
start_stream i config cfg app_id s c =
    if is_negative app_id
    then record { result = no_app; server = s; client = c }
    else run_stream i config (
        gs_start_app i.launch
          (record {
            app_id = app_id;
            is_gfe = s.is_gfe;
            sops = config.sops;
            local_audio = config.localaudio;
            gamepad_mask = gamepad_mask i.controllers;
          })
          s cfg c)

-- What follows the request for the list, given its result.
unfoldable pub stream_from :
    StreamInput
    → Configuration
    → StreamConfig
    → Server
    → (ℤ × Option (List App)) × Client
    → Streamed
unfolding start_stream choose_app get_app_id
stream_from i config cfg s ((code, list), c) =
    if i.want_main_menu
    then record { result = backed_out; server = s; client = c }
    else elim (if is_ok code then non_empty list else none) [
      | some l ↦ start_stream i config cfg (choose_app l i.sel config.app) s c
      | none ↦ let (app_id, c') = get_app_id s config.app c in start_stream i config cfg app_id s c'
    ]

-- `cfg` is `config->stream`.
unfoldable pub do_stream : StreamInput → Configuration → StreamConfig → Server → Client → Streamed
unfolding stream_from gs_applist
do_stream i config cfg s c = stream_from i config cfg s (gs_applist s c)
