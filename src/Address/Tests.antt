-- ===== src/Address/Tests.antt =====
-- src/main.c: an address is entered over another one.
use moonlight_wii.Prelude.{
  ◌≡◌, refl, true, false, Option, none, some, List, [], ◌∷◌, ◌==◌, if◌then◌else◌, arith,
}
use moonlight_wii.Prelude.Text.{Bytes, codes, c_string}
use moonlight_wii.Config.Tests.{sample, sample-IsSavable}
use moonlight_wii.Menu.{Round, pressed, menu_input_string, index_from}
use moonlight_wii.Address.{
  Front, deref, free, strdup_address, save_config, enter_address, connect_server,
}
use moonlight_wii.Address.Owner.{IsOwned, enter_address-IsOwned, enter_address-dangling}
use moonlight_wii.Address.Restart.{Restarts, enter_address-Restarts}

-- The address "10." stands in block 4.
abbrev front : Front
front = record {
  settings = sample;
  file = [];
  blocks = λ q. if q == 4 then some (codes "10.") else none;
  next = 5;
  address = some 4;
  server = none;
}

front-IsOwned : IsOwned front
front-IsOwned = record {
  only = λ q h. ground arith;
  live = λ q e. ground arith;
  fresh = λ q h. ground arith;
}

abbrev press_up : Round
press_up =
    pressed (record { a = false; b = false; up = true; down = false; left = false; right = false })

abbrev press_a : Round
press_a =
    pressed (record { a = true; b = false; up = false; down = false; left = false; right = false })

-- The first character becomes the one before '1' in the set; the dot at the end is taken off.
abbrev rounds : List Round
rounds = press_up ∷ press_a ∷ []

abbrev behind : Front → Front
behind f = save_config (strdup_address (codes "00") (free (some 4) f))

entered_zeros : enter_address rounds front ≡ some (true, behind front)
unfolding enter_address menu_input_string c_string index_from
entered_zeros = refl

entered_connected :
    enter_address rounds (connect_server front) ≡ some (true, behind (connect_server front))
unfolding enter_address menu_input_string c_string index_from connect_server
entered_connected = refl

enter_address-IsOwned_example : IsOwned (behind front)
enter_address-IsOwned_example =
    enter_address-IsOwned rounds front (behind front) true front-IsOwned entered_zeros

enter_address-dangling_example :
    ((behind (connect_server front)).server ≡ some 4)
    × (deref (behind (connect_server front)) (behind (connect_server front)).server ≡ none)
enter_address-dangling_example =
    enter_address-dangling front 4 front-IsOwned refl rounds (behind (connect_server front))
      entered_connected

-- The one file that there is.
abbrev files : Bytes → Option Bytes
files name = some (behind front).file

enter_address-Restarts_example : Restarts files 0 (codes "sd:/moonlight.conf") front (behind front)
unfolding deref
enter_address-Restarts_example =
    enter_address-Restarts files 0 (codes "sd:/moonlight.conf") rounds front (behind front)
      sample-IsSavable (refl, (refl, (refl, tt))) entered_zeros refl
