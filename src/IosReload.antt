-- ===== src/IosReload.antt =====
-- src/main.c: `handle_config_pair`, the loop over the arguments in `main` and `handle_ios_reload`: an
-- argument such as "ios=250" names the IOS to load. A string is its characters before the NUL, and the
-- state is that of the two static variables; `IOS_ReloadIOS` is outside, and what is modelled of the call
-- is its argument.
pub mod Arguments
mod Tests
use moonlight_wii.Prelude.{
  ℕ, zero, suc, Bool, true, false, Option, none, some, List, [], ◌∷◌, ◌==◌, ◌||◌, if◌then◌else◌,
}
use moonlight_wii.Prelude.Int.{ℤ, pos}
use moonlight_wii.Prelude.Text.{Bytes, codes, str_eq}
use moonlight_wii.Prelude.Decimal.{atoi}

-- isReload and iosVal
pub record Ios : Type 0 where
  pub is_reload : Bool
  pub ios_val : ℤ

abbrev pub ios_initial : Ios
ios_initial = record { is_reload = false; ios_val = pos 58 }

abbrev pub is_delimiter : ℕ → Bool
is_delimiter c = c == b' ' || (c == 9 || (c == b':' || c == b'='))

-- The first loop: the key, with at most `room` characters, and what is behind it.
unfoldable pub split_key : ℕ → Bytes → Bytes × Bytes
split_key zero s = ([], s)
split_key (suc room) [] = ([], [])
split_key (suc room) (c ∷ s) =
    let rest = split_key room s in if is_delimiter c then ([], c ∷ s) else (c ∷ rest.0, rest.1)

-- The second loop.
unfoldable pub skip_delimiters : Bytes → Bytes
skip_delimiters [] = []
skip_delimiters (c ∷ s) = if is_delimiter c then skip_delimiters s else c ∷ s

unfoldable pub handle_config_pair : Bytes → Ios → Ios
unfolding split_key skip_delimiters str_eq atoi
handle_config_pair kv s =
    let (key, vs) = split_key 63 kv in
    if str_eq key (codes "ios")
    then record { is_reload = true; ios_val = atoi (skip_delimiters vs) }
    else s

-- The loop of `main`, over the arguments behind the name of the program.
unfoldable pub handle_config_pairs : List Bytes → Ios → Ios
unfolding handle_config_pair
handle_config_pairs [] s = s
handle_config_pairs (kv ∷ argv) s = handle_config_pairs argv (handle_config_pair kv s)

-- The IOS that is loaded, if any.
unfoldable pub handle_ios_reload : Ios → Option ℤ
handle_ios_reload s = if s.is_reload then some s.ios_val else none
