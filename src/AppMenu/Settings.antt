-- ===== src/AppMenu/Settings.antt =====
-- src/main.c: `settings_menu`. What the menus return is given, one selection after the other.
use moonlight_wii.Prelude.{ℕ, Bool, not, List, [], ◌∷◌, ◌||◌, ◌==◌, if◌then◌else◌, get_or}
use moonlight_wii.Prelude.Int.{ℤ, pos, negsuc}
use moonlight_wii.Config.{Configuration, Encryption}

-- `res`, by the arrays `w` and `h`.
abbrev pub widths : List ℕ
widths = 640 ∷ 854 ∷ 1280 ∷ 1920 ∷ []

abbrev pub heights : List ℕ
heights = 480 ∷ 480 ∷ 720 ∷ 1080 ∷ []

-- The bits ENCFLG_AUDIO and ENCFLG_VIDEO of `encvals`.
abbrev pub encryption_of : ℕ → Encryption
encryption_of r = record { audio = r == 1 || r == 3; video = r == 2 || r == 3 }

-- v > 0
abbrev pub is_positive : ℕ → Bool
is_positive v = not (v == 0)

-- What a setting does with the value `v` of its menu, where that is not negative: the indices are the
-- cases of the switch.
unfoldable pub set_value : ℕ → ℕ → Configuration → Configuration
set_value sel v c =
    if sel == 0
    then record c { width = pos (get_or widths v 0); height = pos (get_or heights v 0) }
    else if sel == 1
    then if is_positive v then record c { fps = pos v } else c
    else if sel == 2
    then if is_positive v then record c { bitrate = pos v } else c
    else if sel == 3
    then record c { viewonly = is_positive v }
    else if sel == 4
    then record c { localaudio = is_positive v }
    else if sel == 5
    then record c { quitappafter = is_positive v }
    else if sel == 6
    then record c { osd_overscan = pos v }
    else if sel == 7
    then record c { encryption_flags = encryption_of v }
    else c

-- A negative value, for a menu that was left, changes nothing.
abbrev pub set_result : ℕ → ℤ → Configuration → Configuration
set_result sel (pos v) c = set_value sel v c
set_result sel (negsuc n) c = c

-- A selection, and the value that its menu returns.
abbrev pub Selection : Type 0
Selection = ℤ × ℤ

-- The loop, up to a selection of -1 or the end of the program; behind it the configuration is saved.
unfoldable pub settings_menu : List Selection → Configuration → Configuration
unfolding set_value
settings_menu [] c = c
settings_menu ((pos sel, v) ∷ selections) c = settings_menu selections (set_result sel v c)
settings_menu ((negsuc n, v) ∷ selections) c = c
