-- ===== src/Identity/First.antt =====
-- The first start: `gs_conf_init` makes what `gs_conf_load` then reads.
use moonlight_wii.Prelude.{
  ℕ, zero, suc, ◌+◌, ◌-◌, ◌≤◌, ◌≡◌, refl, ap, ap₂, ◌∙◌, true, false, none, some, List, [], ◌∷◌,
  ◌++◌, ltb, arith, length, take, drop, set, length-replicate, length-append, length-drop,
}
use moonlight_wii.Prelude.Text.{Bytes, c_string, str_eq, str_eq_refl}
use moonlight_wii.Prelude.Memory.{write, write-append}
use moonlight_wii.Errors.{gs_ok}
use moonlight_wii.Hex.{bytes_to_hex}
use moonlight_wii.Identity.{
  Platform, Identity, Disk, stored, unique_file_name, certificate_file_name, key_file_name,
  unique_id_default, unique_id_chars, cert_hex_size, path_in, read_unique_id, load_unique_id,
  init_unique_id, cert_hex_of, load_cert, gs_conf_load, mkdirtree, write_pem, write_or_failed,
  mkcert_generate_impl, mkcert_generate, gs_conf_init, fresh, gs_new, create_client,
}
use moonlight_wii.Identity.Loaded.{c_string-set, cert_hex_of-bytes_to_hex}

-- A text that is the same at the front tells two texts apart no more.
str_eq_front : (s a b : Bytes) → str_eq (s ++ a) (s ++ b) ≡ str_eq a b
unfolding str_eq
str_eq_front [] a b = refl
str_eq_front (c ∷ s) a b = ground (arith, str_eq_front s a b)

take_fits : (n : ℕ) (s : Bytes) → length s ≤ n → take n s ≡ s
take_fits zero [] h = refl
take_fits zero (c ∷ s) h = absurd (omega arith)
take_fits (suc n) [] h = refl
take_fits (suc n) (c ∷ s) h = ap (λ l. c ∷ l) (take_fits n s (omega arith))

-- What mbedtls does on the first start: it makes a key and a certificate, and can read what it wrote.
pub record Makes (platform : Platform) (key pem : Bytes) : Type 0 where
  pub seeded : platform.seeds ≡ true
  pub set_up : platform.sets_up ≡ true
  pub generated : platform.generates_key ≡ true
  pub validity_set : platform.sets_validity ≡ true
  pub key_is : platform.key_pem ≡ some key
  pub crt_is : platform.crt_pem ≡ some pem
  pub key_parses : platform.parses_key (some key) ≡ true
  pub parses : platform.parses_cert (some pem) ≡ true

-- The file can be opened, and the text has room in it.
pub record Takes (platform : Platform) (path text : Bytes) : Type 0 where
  pub opened : platform.opens path ≡ true
  pub has_room : length text ≤ platform.room path

write_pem_lem :
    (platform : Platform) (path text : Bytes) (disk : Disk)
    → Takes platform path text
    → write_pem platform path text disk ≡ (stored path text disk, gs_ok)
unfolding write_pem
write_pem_lem platform path text disk t =
    rw (t.opened, take_fits (platform.room path) text t.has_room) refl

-- Both files, the key first.
mkcert_generate_lem :
    (platform : Platform) (key pem cert_file key_file : Bytes) (disk : Disk)
    → Makes platform key pem
    → Takes platform key_file key
    → Takes platform cert_file pem
    → mkcert_generate platform cert_file key_file disk
      ≡ (stored cert_file pem (stored key_file key disk), gs_ok)
unfolding mkcert_generate mkcert_generate_impl write_or_failed
mkcert_generate_lem platform key pem cert_file key_file disk m k c =
    rw
      (
        m.seeded,
        m.set_up,
        m.generated,
        m.validity_set,
        m.key_is,
        m.crt_is,
        write_pem_lem platform key_file key disk k,
      )
      (write_pem_lem platform cert_file pem (stored key_file key disk) c)

module _ (platform : Platform) (keydir : Bytes)
    (fits : length keydir + 14 ≤ platform.path_max) where
  path_lem :
      (name : Bytes) → length name ≤ 12 → path_in platform keydir name ≡ keydir ++ b'/' ∷ name
  unfolding path_in
  path_lem name h =
      take_fits (platform.path_max - 1) (keydir ++ b'/' ∷ name)
        (omega (arith, length-append keydir (b'/' ∷ name)))

  other_path :
      (a b : Bytes)
      → length a ≤ 12
      → length b ≤ 12
      → str_eq a b ≡ false
      → str_eq (path_in platform keydir a) (path_in platform keydir b) ≡ false
  unfolding str_eq
  other_path a b ha hb e =
      ap₂ str_eq (path_lem a ha) (path_lem b hb) ∙ str_eq_front keydir (b'/' ∷ a) (b'/' ∷ b) ∙ e

  -- What was stored is read into the buffer, with a NUL behind it.
  read_default :
      (hnd : Identity)
      → length hnd.unique_id ≡ 17
      → (hnd' : Identity) × (read_unique_id platform (some unique_id_default) hnd ≡ (hnd', gs_ok))
        × (c_string hnd'.unique_id ≡ unique_id_default)
        × (hnd'.cert_hex ≡ hnd.cert_hex)
  unfolding read_unique_id
  read_default hnd h =
      let text = set (write hnd.unique_id 0 unique_id_default) 16 0 in
      let laid : write hnd.unique_id 0 unique_id_default
          ≡ unique_id_default ++ drop 16 hnd.unique_id =
        write-append [] hnd.unique_id unique_id_default 0 refl (omega arith) in
      (
        record hnd { unique_id = text },
        refl,
        ap (λ (s : Bytes). c_string (set s 16 0)) laid
            ∙ c_string-set unique_id_default (drop 16 hnd.unique_id) (omega arith)
                (omega (arith, length-drop 16 hnd.unique_id)),
        refl,
      )

  abbrev pub id_path : Bytes
  id_path = path_in platform keydir unique_file_name

  abbrev pub cert_path : Bytes
  cert_path = path_in platform keydir certificate_file_name

  abbrev pub key_path : Bytes
  key_path = path_in platform keydir key_file_name

  module _ (key pem : Bytes) (makes : Makes platform key pem)
      (key_taken : Takes platform key_path key) (cert_taken : Takes platform cert_path pem) where
    -- The files behind `gs_conf_init`.
    abbrev initialised : Disk → Disk
    initialised disk =
        stored cert_path pem (stored key_path key (stored id_path unique_id_default disk))

    id_kept : (disk : Disk) → initialised disk id_path ≡ some unique_id_default
    unfolding str_eq
    id_kept disk =
        rw
          (
            other_path unique_file_name certificate_file_name (omega arith) (omega arith) refl,
            other_path unique_file_name key_file_name (omega arith) (omega arith) refl,
            str_eq_refl id_path,
          )
          refl

    key_kept : (disk : Disk) → initialised disk key_path ≡ some key
    unfolding str_eq
    key_kept disk =
        rw
          (
            other_path key_file_name certificate_file_name (omega arith) (omega arith) refl,
            str_eq_refl key_path,
          )
          refl

    cert_stored : (disk : Disk) → initialised disk cert_path ≡ some pem
    cert_stored disk = rw (str_eq_refl cert_path) refl

    gs_conf_init_lem :
        (disk : Disk) (calls : List Bytes)
        → mkdirtree platform keydir ≡ some (calls, true)
        → platform.opens id_path ≡ true
        → unique_id_chars ≤ platform.room id_path
        → gs_conf_init platform disk keydir ≡ (initialised disk, gs_ok)
    unfolding gs_conf_init init_unique_id
    gs_conf_init_lem disk calls e o r =
        let enough : ltb (platform.room id_path) unique_id_chars ≡ false = ground arith in
        rw e (
          rw (o, enough)
            (mkcert_generate_lem platform key pem cert_path key_path
              (stored id_path unique_id_default disk) makes key_taken cert_taken))

    load_cert_lem :
        (disk : Disk) (hnd : Identity)
        → length hnd.cert_hex ≡ cert_hex_size
        → (hnd' : Identity) × (load_cert platform (initialised disk) keydir hnd ≡ (hnd', gs_ok))
          × (c_string hnd'.cert_hex ≡ bytes_to_hex (take 4095 pem))
          × (hnd'.unique_id ≡ hnd.unique_id)
          × (hnd'.cert ≡ true)
          × (hnd'.pk ≡ true)
    unfolding load_cert
    load_cert_lem disk hnd h = (
      record hnd { cert_hex = cert_hex_of platform pem hnd.cert_hex; cert = true; pk = true },
      rw (cert_stored disk, key_kept disk, makes.parses, makes.key_parses) refl,
      cert_hex_of-bytes_to_hex platform pem hnd.cert_hex h,
      refl,
      refl,
      refl,
    )

    -- The default id, the digits of the certificate, and both parsed.
    abbrev pub Holds : Identity → Type 0
    Holds hnd =
        (c_string hnd.unique_id ≡ unique_id_default)
        × (c_string hnd.cert_hex ≡ bytes_to_hex (take 4095 pem))
        × (hnd.cert ≡ true)
        × (hnd.pk ≡ true)

    abbrev pub HasFiles : Disk → Type 0
    HasFiles disk =
        (disk id_path ≡ some unique_id_default)
        × (disk cert_path ≡ some pem)
        × (disk key_path ≡ some key)

    gs_new_lem :
        (disk : Disk)
        → (hnd : Identity) × (gs_new platform true (initialised disk) keydir ≡ some hnd) × Holds hnd
    unfolding gs_new gs_conf_load load_unique_id
    gs_new_lem disk =
        let (hnd1, read, id, same) =
          read_default (fresh platform) (length-replicate {A = ℕ} 17 0) in
        let (hnd2, got, hex, id', c, k) =
          load_cert_lem disk hnd1 (ap length same ∙ length-replicate {A = ℕ} cert_hex_size 0) in
        let first : load_unique_id platform (initialised disk) keydir (fresh platform)
            ≡ (hnd1, gs_ok) =
          ap (λ f. read_unique_id platform f (fresh platform)) (id_kept disk) ∙ read in
        (hnd2, rw first (rw got refl), (ap c_string id' ∙ id, hex, c, k))

    -- The first start: where there is no client yet, its folder can be made, the three files can be opened and
    -- have room for what is written, mbedtls makes a key and a certificate and can read them again, the
    -- path fits, and `http_create` succeeds, `create_client` ends with a client: its unique id is the
    -- default one, its text of the certificate the digits of the certificate, up to 4095 bytes, and the
    -- certificate and the key are loaded; the files hold the id, the certificate and the key.
    pub create_client-first_client :
        (disk : Disk) (calls : List Bytes)
        → gs_new platform true disk keydir ≡ none
        → mkdirtree platform keydir ≡ some (calls, true)
        → platform.opens id_path ≡ true
        → unique_id_chars ≤ platform.room id_path
        → (hnd : Identity) × ((create_client platform true disk keydir).1 ≡ some hnd)
          × Holds hnd
          × HasFiles (create_client platform true disk keydir).0
    unfolding create_client
    create_client-first_client disk calls e m o r =
        let (hnd, new, holds) = gs_new_lem disk in
        let made : create_client platform true disk keydir
            ≡ (initialised disk, gs_new platform true (initialised disk) keydir) =
          rw (e, gs_conf_init_lem disk calls m o r) refl in
        (
          hnd,
          ap (λ x. x.1) made ∙ new,
          holds,
          rw made (id_kept disk, cert_stored disk, key_kept disk),
        )
