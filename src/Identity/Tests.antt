-- ===== src/Identity/Tests.antt =====
-- A first start on an empty card.
use moonlight_wii.Prelude.{
  ℕ, ◌+◌, ◌≤◌, length, ◌≡◌, refl, Bool, true, false, not, Option, none, some, [], ◌∷◌, arith,
  if◌then◌else◌, take, replicate, length-replicate,
}
use moonlight_wii.Prelude.Text.{Bytes, codes, c_string, str_eq}
use moonlight_wii.Errors.{gs_io_error}
use moonlight_wii.Hex.{bytes_to_hex}
use moonlight_wii.Identity.{
  Platform, made, exists_already, Identity, Disk, cert_hex_of, mkdirtree, mkcert_generate, gs_new,
  create_client, cert_hex_size,
}
use moonlight_wii.Identity.Folders.{folders, attempt, mkdirtree-folders}
use moonlight_wii.Identity.Loaded.{cert_hex_of-bytes_to_hex}
use moonlight_wii.Identity.First.{
  Makes, Takes, Holds, HasFiles, key_path, cert_path, create_client-first_client,
}

abbrev pem : Bytes
pem = codes "PEM"

abbrev key : Bytes
key = codes "KEY!"

abbrev keydir : Bytes
keydir = codes "sd:/apps/keys"

abbrev parses : Option Bytes → Bool
parses none = false
parses (some content) = true

abbrev card : Platform
card = record {
  path_max = 64;
  opens = λ path. true;
  room = λ path. 100;
  mkdir = λ path. if str_eq path (codes "sd:") then exists_already else made;
  parses_cert = parses;
  parses_key = parses;
  seeds = true;
  sets_up = true;
  generates_key = true;
  sets_validity = true;
  key_pem = some key;
  crt_pem = some pem;
}

keydir_fits : length keydir + 14 ≤ card.path_max
keydir_fits = omega arith

abbrev empty_card : Disk
empty_card path = none

card-Makes : Makes card key pem
card-Makes = record {
  seeded = refl;
  set_up = refl;
  generated = refl;
  validity_set = refl;
  key_is = refl;
  crt_is = refl;
  key_parses = refl;
  parses = refl;
}

key-Takes : Takes card (key_path card keydir keydir_fits) key
key-Takes = record { opened = refl; has_room = omega arith }

cert-Takes : Takes card (cert_path card keydir keydir_fits) pem
cert-Takes = record { opened = refl; has_room = omega arith }

nothing_there : gs_new card true empty_card keydir ≡ none
unfolding gs_new
nothing_there = refl

mkdirtree-folders_example : mkdirtree card keydir ≡ some (attempt card (folders (take 63 keydir)))
mkdirtree-folders_example = mkdirtree-folders card keydir

mkdirtree_calls :
    mkdirtree card keydir ≡ some (codes "sd:" ∷ codes "sd:/apps" ∷ codes "sd:/apps/keys" ∷ [], true)
unfolding mkdirtree str_eq
mkdirtree_calls = refl

cert_hex_of-bytes_to_hex_example :
    c_string (cert_hex_of card pem (replicate cert_hex_size 0)) ≡ bytes_to_hex (take 4095 pem)
cert_hex_of-bytes_to_hex_example =
    cert_hex_of-bytes_to_hex card pem (replicate cert_hex_size 0)
      (length-replicate {A = ℕ} cert_hex_size 0)

create_client-first_client_example :
    (hnd : Identity) × ((create_client card true empty_card keydir).1 ≡ some hnd)
    × Holds card keydir keydir_fits key pem card-Makes key-Takes cert-Takes hnd
    × HasFiles card keydir keydir_fits key pem card-Makes key-Takes cert-Takes
        (create_client card true empty_card keydir).0
create_client-first_client_example =
    create_client-first_client card keydir keydir_fits key pem card-Makes key-Takes cert-Takes
      empty_card (codes "sd:" ∷ codes "sd:/apps" ∷ codes "sd:/apps/keys" ∷ []) nothing_there
      mkdirtree_calls refl (omega arith)

-- A file of the key that cannot be opened: the certificate is not made either.
no_key_file :
    mkcert_generate
      (record card { opens = λ path. not (str_eq path (codes "key.pem")) })
      (codes "client.pem")
      (codes "key.pem")
      empty_card
    ≡ (empty_card, gs_io_error)
unfolding mkcert_generate str_eq
no_key_file = refl
