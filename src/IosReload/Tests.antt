-- ===== src/IosReload/Tests.antt =====
-- Arguments of the program, and the theorem at them.
use moonlight_wii.Prelude.{◌≡◌, refl, none, some, List, [], ◌∷◌}
use moonlight_wii.Prelude.Int.{pos}
use moonlight_wii.Prelude.Text.{Bytes, codes, str_eq}
use moonlight_wii.Prelude.Decimal.{atoi}
use moonlight_wii.IosReload.{
  ios_initial, split_key, skip_delimiters, handle_config_pair, handle_ios_reload,
}

abbrev before : List Bytes
before = codes "ios=58" ∷ codes "x" ∷ []

abbrev after : List Bytes
after = codes "iosx=3" ∷ codes "debug" ∷ []

-- Delimiters of every kind, no number, and no key.
handled :
    (handle_ios_reload (handle_config_pair (codes "ios : 249") ios_initial) ≡ some (pos 249))
    × (handle_ios_reload (handle_config_pair (codes "ios") ios_initial) ≡ some (pos 0))
    × (handle_ios_reload (handle_config_pair (codes "=ios=3") ios_initial) ≡ none)
unfolding handle_ios_reload handle_config_pair split_key skip_delimiters str_eq atoi
handled = (refl, refl, refl)
