-- ===== src/Menu/Tests.antt =====
-- src/wii/menu.c: runs.
use moonlight_wii.Prelude.{ℕ, ◌≤◌, ◌≡◌, refl, true, false, some, List, [], ◌∷◌, length, leb}
use moonlight_wii.Prelude.Int.{pos, ◌-ℤ◌}
use moonlight_wii.Prelude.Text.{Bytes, codes, c_string}
use moonlight_wii.Menu.{Round, pressed, menu_select, menu_input_string, entered, index_from}
use moonlight_wii.Menu.Laws.{press_down, press_a}
use moonlight_wii.Menu.Texts.{All}
use moonlight_wii.Menu.Entries.{Gives, menu_input_string-Fine}

abbrev press_up : Round
press_up =
    pressed (record { a = false; b = false; up = true; down = false; left = false; right = false })

abbrev press_right : Round
press_right =
    pressed (record { a = false; b = false; up = false; down = false; left = false; right = true })

last_but_one : menu_select 3 (pos 7) (press_up ∷ press_a ∷ []) ≡ some (pos 1)
unfolding menu_select ◌-ℤ◌
last_but_one = refl

abbrev digits : Bytes
digits = codes "0123456789."

-- Up at the first character, right twice, down: the gap is filled with the first of the set.
abbrev presses : List Round
presses = press_up ∷ press_right ∷ press_right ∷ press_down ∷ press_a ∷ []

entered_text : menu_input_string digits 15 [] presses ≡ entered (codes ".01")
unfolding menu_input_string c_string index_from
entered_text = refl

-- The characters up to '9'.
abbrev IsLow : ℕ → Type 0
IsLow c = leb c b'9' ≡ true

digits-IsLow : All IsLow digits
digits-IsLow =
    (refl, (refl, (refl, (refl, (refl, (refl, (refl, (refl, (refl, (refl, (refl, tt)))))))))))

menu_input_string-Fine_example :
    Gives (λ out. (length out ≤ 15) × All IsLow out) (menu_input_string digits 15 [] presses)
menu_input_string-Fine_example = menu_input_string-Fine IsLow digits 15 [] presses digits-IsLow tt
