-- ===== src/AppMenu/Chosen.antt =====
-- src/main.c: which settings `settings_menu` leaves, setting by setting.
use moonlight_wii.Prelude.{
  ℕ, zero, suc, ◌≡◌, refl, ap, ◌∙◌, Bool, true, false, Option, none, some, List, [], ◌∷◌, arith,
}
use moonlight_wii.Prelude.Int.{ℤ, pos, negsuc}
use moonlight_wii.Config.{Configuration, Encryption}
use moonlight_wii.AppMenu.Settings.{set_value, set_result, Selection, settings_menu}

-- The entries of the menu of settings, from the top.
pub data Entry : Type 0 where
  resolution frame_rate bitrate_kbps view_only local_audio quit_app overscan encrypt other : Entry

abbrev pub entry_at : ℕ → Entry
entry_at zero = resolution
entry_at (suc zero) = frame_rate
entry_at (suc (suc zero)) = bitrate_kbps
entry_at (suc (suc (suc zero))) = view_only
entry_at (suc (suc (suc (suc zero)))) = local_audio
entry_at (suc (suc (suc (suc (suc zero))))) = quit_app
entry_at (suc (suc (suc (suc (suc (suc zero)))))) = overscan
entry_at (suc (suc (suc (suc (suc (suc (suc zero))))))) = encrypt
entry_at _ = other

-- "640x480", "854x480", "1280x720", "1920x1080"
abbrev pub size_at : ℕ → ℤ × ℤ
size_at zero = (pos 640, pos 480)
size_at (suc zero) = (pos 854, pos 480)
size_at (suc (suc zero)) = (pos 1280, pos 720)
size_at (suc (suc (suc zero))) = (pos 1920, pos 1080)
size_at _ = (pos 0, pos 0)

-- "None", "Audio", "Video", "All"
abbrev pub encryption_at : ℕ → Encryption
encryption_at zero = record { audio = false; video = false }
encryption_at (suc zero) = record { audio = true; video = false }
encryption_at (suc (suc zero)) = record { audio = false; video = true }
encryption_at (suc (suc (suc zero))) = record { audio = true; video = true }
encryption_at _ = record { audio = false; video = false }

-- 0 is "No".
abbrev pub says_yes : ℕ → Bool
says_yes zero = false
says_yes (suc n) = true

abbrev pub positive : ℕ → Option ℤ
positive zero = none
positive (suc n) = some (pos (suc n))

-- What a selection says of a setting: nothing for the other entries, nor for a rate of 0.
abbrev pub says_size : Entry → ℕ → Option (ℤ × ℤ)
says_size resolution v = some (size_at v)
says_size _ v = none

abbrev pub says_fps : Entry → ℕ → Option ℤ
says_fps frame_rate v = positive v
says_fps _ v = none

abbrev pub says_bitrate : Entry → ℕ → Option ℤ
says_bitrate bitrate_kbps v = positive v
says_bitrate _ v = none

abbrev pub says_viewonly : Entry → ℕ → Option Bool
says_viewonly view_only v = some (says_yes v)
says_viewonly _ v = none

abbrev pub says_localaudio : Entry → ℕ → Option Bool
says_localaudio local_audio v = some (says_yes v)
says_localaudio _ v = none

abbrev pub says_quitappafter : Entry → ℕ → Option Bool
says_quitappafter quit_app v = some (says_yes v)
says_quitappafter _ v = none

abbrev pub says_overscan : Entry → ℕ → Option ℤ
says_overscan overscan v = some (pos v)
says_overscan _ v = none

abbrev pub says_encryption : Entry → ℕ → Option Encryption
says_encryption encrypt v = some (encryption_at v)
says_encryption _ v = none

abbrev pub or_old : {A : Type 0} → Option A → A → A
or_old none old = old
or_old (some a) old = a

abbrev pub said : {A : Type 0} → (Entry → ℕ → Option A) → ℕ → ℤ → A → A
said says sel (pos v) old = or_old (says (entry_at sel) v) old
said says sel (negsuc n) old = old

-- The last word of the selections on a setting, up to the one that leaves the menu.
abbrev pub last_said : {A : Type 0} → (Entry → ℕ → Option A) → List Selection → A → A
last_said says [] old = old
last_said says ((pos sel, v) ∷ selections) old = last_said says selections (said says sel v old)
last_said says ((negsuc n, v) ∷ selections) old = old

-- The configuration as it was chosen.
unfoldable pub as_chosen : List Selection → Configuration → Configuration
as_chosen l c =
    let size = last_said says_size l (c.width, c.height) in
    record c {
      width = size.0;
      height = size.1;
      fps = last_said says_fps l c.fps;
      bitrate = last_said says_bitrate l c.bitrate;
      viewonly = last_said says_viewonly l c.viewonly;
      localaudio = last_said says_localaudio l c.localaudio;
      quitappafter = last_said says_quitappafter l c.quitappafter;
      osd_overscan = last_said says_overscan l c.osd_overscan;
      encryption_flags = last_said says_encryption l c.encryption_flags;
    }

-- One selection.
abbrev said_all : ℕ → ℤ → Configuration → Configuration
said_all sel v c =
    let size = said says_size sel v (c.width, c.height) in
    record c {
      width = size.0;
      height = size.1;
      fps = said says_fps sel v c.fps;
      bitrate = said says_bitrate sel v c.bitrate;
      viewonly = said says_viewonly sel v c.viewonly;
      localaudio = said says_localaudio sel v c.localaudio;
      quitappafter = said says_quitappafter sel v c.quitappafter;
      osd_overscan = said says_overscan sel v c.osd_overscan;
      encryption_flags = said says_encryption sel v c.encryption_flags;
    }

set_result_lem : (sel : ℕ) (v : ℤ) (c : Configuration) → set_result sel v c ≡ said_all sel v c
unfolding set_value
set_result_lem sel (negsuc n) c = refl
set_result_lem zero (pos zero) c = refl
set_result_lem zero (pos (suc zero)) c = refl
set_result_lem zero (pos (suc (suc zero))) c = refl
set_result_lem zero (pos (suc (suc (suc zero)))) c = refl
set_result_lem zero (pos (suc (suc (suc (suc v))))) c = refl
set_result_lem (suc zero) (pos zero) c = refl
set_result_lem (suc zero) (pos (suc v)) c = ground arith
set_result_lem (suc (suc zero)) (pos zero) c = refl
set_result_lem (suc (suc zero)) (pos (suc v)) c = ground arith
set_result_lem (suc (suc (suc zero))) (pos zero) c = refl
set_result_lem (suc (suc (suc zero))) (pos (suc v)) c = ground arith
set_result_lem (suc (suc (suc (suc zero)))) (pos zero) c = refl
set_result_lem (suc (suc (suc (suc zero)))) (pos (suc v)) c = ground arith
set_result_lem (suc (suc (suc (suc (suc zero))))) (pos zero) c = refl
set_result_lem (suc (suc (suc (suc (suc zero))))) (pos (suc v)) c = ground arith
set_result_lem (suc (suc (suc (suc (suc (suc zero)))))) (pos v) c = refl
set_result_lem (suc (suc (suc (suc (suc (suc (suc zero))))))) (pos zero) c = refl
set_result_lem (suc (suc (suc (suc (suc (suc (suc zero))))))) (pos (suc zero)) c = refl
set_result_lem (suc (suc (suc (suc (suc (suc (suc zero))))))) (pos (suc (suc zero))) c = refl
set_result_lem (suc (suc (suc (suc (suc (suc (suc zero))))))) (pos (suc (suc (suc zero)))) c = refl
set_result_lem (suc (suc (suc (suc (suc (suc (suc zero))))))) (pos (suc (suc (suc (suc v))))) c =
    ground arith
set_result_lem (suc (suc (suc (suc (suc (suc (suc (suc sel)))))))) (pos v) c = ground arith

-- What the menu leaves is what was chosen, every other setting as it was.
pub settings_menu-chosen :
    (selections : List Selection) (c : Configuration)
    → settings_menu selections c ≡ as_chosen selections c
unfolding settings_menu as_chosen
settings_menu-chosen [] c = refl
settings_menu-chosen ((pos sel, v) ∷ selections) c =
    ap (settings_menu selections) (set_result_lem sel v c)
    ∙ settings_menu-chosen selections (said_all sel v c)
settings_menu-chosen ((negsuc n, v) ∷ selections) c = refl
