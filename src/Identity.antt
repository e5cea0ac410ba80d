-- ===== src/Identity.antt =====
-- libgamestream/conf.c: the client's unique id and certificate in the directory of the keys, made by
-- `gs_conf_init` and read by `gs_conf_load`; and libgamestream/mkcert.c, which makes the certificate and
-- the key. The file system and mbedtls are arguments.
pub mod Folders
pub mod Loaded
pub mod First
mod Tests
use moonlight_wii.Prelude.{
  ℕ, zero, suc, ◌+◌, ◌-◌, ◌*◌, ◌/◌, ◌%◌, Bool, true, false, ◌&&◌, not, Option, none, some, List, [],
  ◌∷◌, ◌++◌, if◌then◌else◌, leb, ltb, ◌==◌, length, take, set, replicate,
}
use moonlight_wii.Prelude.Int.{ℤ, pos, negsuc}
use moonlight_wii.Prelude.Text.{Bytes, codes, str_eq}
use moonlight_wii.Prelude.Memory.{write}
use moonlight_wii.Errors.{gs_ok, gs_failed, gs_io_error, gs_bad_conf, is_ok}
use moonlight_wii.Hex.{hex_digit}

abbrev pub unique_file_name : Bytes
unique_file_name = codes "uniqueid.dat"

abbrev pub certificate_file_name : Bytes
certificate_file_name = codes "client.pem"

abbrev pub key_file_name : Bytes
key_file_name = codes "key.pem"

abbrev pub unique_id_default : Bytes
unique_id_default = codes "0123456789ABCDEF"

-- UNIQUEID_CHARS
abbrev pub unique_id_chars : ℕ
unique_id_chars = 16

abbrev pub cert_hex_size : ℕ
cert_hex_size = 8192

-- The files of the card, by their paths.
abbrev pub Disk : Type 0
Disk = Bytes → Option Bytes

abbrev pub stored : Bytes → Bytes → Disk → Disk
stored path content disk p = if str_eq p path then some content else disk p

-- What `mkdir` answers.
pub data Made : Type 0 where
  made : Made
  exists_already : Made
  refused : Made

-- What lies outside: `path_max`, whether a file can be opened for writing and how many bytes of it can
-- be written, what `mkdir` answers, whether mbedtls can read a certificate and a key; and of a run of
-- mkcert.c whether its random source is seeded, the results of the calls that set up the key, generate it
-- and set the validity, and the texts of the key and the certificate, where mbedtls can write them.
pub record Platform : Type 0 where
  pub path_max : ℕ
  pub opens : Bytes → Bool
  pub room : Bytes → ℕ
  pub mkdir : Bytes → Made
  pub parses_cert : Option Bytes → Bool
  pub parses_key : Option Bytes → Bool
  pub seeds : Bool
  pub sets_up : Bool
  pub generates_key : Bool
  pub sets_validity : Bool
  pub key_pem : Option Bytes
  pub crt_pem : Option Bytes

-- What of `struct GS_CLIENT_T` is loaded, and whether it holds the parsed certificate and the key.
pub record Identity : Type 0 where
  pub unique_id : Bytes
  pub cert_hex : Bytes
  pub cert : Bool
  pub pk : Bool

module _ (platform : Platform) where
  open platform use {path_max, opens, room, mkdir, parses_cert, parses_key}

  -- snprintf(path, PATH_MAX, "%s%c%s", keydir, '/', name)
  unfoldable pub path_in : Bytes → Bytes → Bytes
  path_in keydir name = take (path_max - 1) (keydir ++ b'/' ∷ name)

  -- fread(hnd->unique_id, 1, UNIQUEID_CHARS, fd): what there is goes into the buffer, also where it is
  -- too little.
  unfoldable pub read_unique_id : Option Bytes → Identity → Identity × ℤ
  read_unique_id none hnd = (hnd, gs_bad_conf)
  read_unique_id (some content) hnd =
      let id = write hnd.unique_id 0 (take unique_id_chars content) in
      if ltb (length content) unique_id_chars
      then (record hnd { unique_id = id }, gs_bad_conf)
      else (record hnd { unique_id = set id unique_id_chars 0 }, gs_ok)

  unfoldable pub load_unique_id : Disk → Bytes → Identity → Identity × ℤ
  unfolding path_in read_unique_id
  load_unique_id disk keydir hnd = read_unique_id (disk (path_in keydir unique_file_name)) hnd

  unfoldable pub init_unique_id : Disk → Bytes → Disk × ℤ
  unfolding path_in
  init_unique_id disk keydir =
      let id_path = path_in keydir unique_file_name in
      if not (opens id_path)
      then (disk, gs_bad_conf)
      else if ltb (room id_path) unique_id_chars
      then (stored id_path (take (room id_path) unique_id_default) disk, gs_bad_conf)
      else (stored id_path unique_id_default disk, gs_ok)

  -- The loop over the characters of the file: the buffer and `length`. "%02x" writes two digits and NUL.
  unfoldable pub hex_loop : Bytes → Bytes → ℕ → Bytes × ℕ
  unfolding hex_digit
  hex_loop [] buffer len = (buffer, len)
  hex_loop (c ∷ cs) buffer len =
      let rest =
        hex_loop cs (write buffer len (hex_digit (c / 16) ∷ hex_digit (c % 16) ∷ 0 ∷ []))
          (len + 2) in
      if leb cert_hex_size (len + 2) then (buffer, len) else rest

  unfoldable pub cert_hex_of : Bytes → Bytes → Bytes
  unfolding hex_loop
  cert_hex_of content buffer = let (buffer', len) = hex_loop content buffer 0 in set buffer' len 0

  unfoldable pub read_cert : Option Bytes → Option Bytes → Identity → Identity × ℤ
  unfolding cert_hex_of
  read_cert none key hnd = (record hnd { cert = false }, gs_io_error)
  read_cert (some content) key hnd =
      let hex = cert_hex_of content hnd.cert_hex in
      if parses_key key
      then (record hnd { cert_hex = hex; cert = true; pk = true }, gs_ok)
      else (record hnd { cert_hex = hex; cert = false; pk = false }, gs_failed)

  unfoldable pub load_cert : Disk → Bytes → Identity → Identity × ℤ
  unfolding path_in read_cert
  load_cert disk keydir hnd =
      let cert_file = disk (path_in keydir certificate_file_name) in
      if parses_cert cert_file
      then read_cert cert_file (disk (path_in keydir key_file_name)) hnd
      else (record hnd { cert = false }, gs_failed)

  unfoldable pub gs_conf_load : Disk → Bytes → Identity → Identity × ℤ
  unfolding load_unique_id load_cert
  gs_conf_load disk keydir hnd =
      let (hnd', ret) = load_unique_id disk keydir hnd in
      if is_ok ret then load_cert disk keydir hnd' else (hnd', ret)

  -- `do p++ while (*p != 0 && *p != '/')`: what the pointer passes, and what it stands at.
  unfoldable pub element : Bytes → Bytes × Bytes
  element [] = ([], [])
  element (c ∷ s) = let (e, rest) = element s in if c == b'/' then ([], c ∷ s) else (c ∷ e, rest)

  abbrev pub with_call : Bytes → Option (List Bytes × Bool) → Option (List Bytes × Bool)
  with_call path none = none
  with_call path (some (calls, ok)) = some (path ∷ calls, ok)

  -- The loop of `mkdirtree`, with fuel: the calls of `mkdir` and whether none failed; `none` where the
  -- fuel ran out. `done` is what lies before the pointer.
  unfoldable pub mkdirtree_from : ℕ → Bytes → Bytes → Option (List Bytes × Bool)
  unfolding element
  mkdirtree_from fuel done [] = some ([], true)
  mkdirtree_from zero done (c ∷ s) = none
  mkdirtree_from (suc fuel) done (c ∷ s) =
      let (e, rest) = element s in
      let path = done ++ c ∷ e in
      elim (mkdir path) [
        | refused ↦ some (path ∷ [], false)
        | _ ↦ with_call path (mkdirtree_from fuel path rest)
      ]

  -- The buffer holds PATH_MAX - 1 characters; as many rounds are enough.
  unfoldable pub mkdirtree : Bytes → Option (List Bytes × Bool)
  unfolding mkdirtree_from
  mkdirtree directory = mkdirtree_from (path_max - 1) [] (take (path_max - 1) directory)

  -- What of the key and the certificate is made in memory; the serial and the names cannot fail.
  unfoldable pub mkcert_generate_impl : ℤ
  mkcert_generate_impl =
      if not platform.sets_up
      then gs_failed
      else if not platform.generates_key
      then gs_failed
      else if not platform.sets_validity
      then gs_failed
      else gs_ok

  -- fopen(path, "w"), and fwrite, whose result is not looked at: what there is room for is written.
  unfoldable pub write_pem : Bytes → Bytes → Disk → Disk × ℤ
  write_pem path text disk =
      if not (opens path)
      then (disk, gs_io_error)
      else (stored path (take (room path) text) disk, gs_ok)

  unfoldable pub write_or_failed : Bytes → Option Bytes → Disk → Disk × ℤ
  unfolding write_pem
  write_or_failed path none disk = (disk, gs_failed)
  write_or_failed path (some text) disk = write_pem path text disk

  -- The key is written first.
  unfoldable pub mkcert_generate : Bytes → Bytes → Disk → Disk × ℤ
  unfolding mkcert_generate_impl write_or_failed
  mkcert_generate cert_file key_file disk =
      let (disk', ret) = write_or_failed key_file platform.key_pem disk in
      if not platform.seeds
      then (disk, gs_failed)
      else if not (is_ok mkcert_generate_impl)
      then (disk, mkcert_generate_impl)
      else if is_ok ret
      then write_or_failed cert_file platform.crt_pem disk'
      else (disk', ret)

  unfoldable pub init_cert : Disk → Bytes → Disk × ℤ
  unfolding path_in mkcert_generate
  init_cert disk keydir =
      mkcert_generate (path_in keydir certificate_file_name) (path_in keydir key_file_name) disk

  unfoldable pub init_files : Option (List Bytes × Bool) → Disk → Bytes → Disk × ℤ
  unfolding init_unique_id init_cert
  init_files (some (calls, true)) disk keydir =
      let (disk', ret) = init_unique_id disk keydir in
      if is_ok ret then init_cert disk' keydir else (disk', ret)
  init_files _ disk keydir = (disk, gs_io_error)

  unfoldable pub gs_conf_init : Disk → Bytes → Disk × ℤ
  unfolding mkdirtree init_files
  gs_conf_init disk keydir = init_files (mkdirtree keydir) disk keydir

  -- malloc and memset; `connects` says that `http_create` gives what it should.
  abbrev pub fresh : Identity
  fresh = record {
    unique_id = replicate 17 0;
    cert_hex = replicate cert_hex_size 0;
    cert = false;
    pk = false;
  }

  unfoldable pub loaded : Identity × ℤ → Bool → Option Identity
  loaded (hnd, ret) connects = if is_ok ret && connects then some hnd else none

  unfoldable pub gs_new : Bool → Disk → Bytes → Option Identity
  unfolding gs_conf_load loaded
  gs_new connects disk keydir = loaded (gs_conf_load disk keydir fresh) connects

  -- src/main.c: the client is made of what is there, or else of what `gs_conf_init` makes.
  unfoldable pub after_init : Bool → Bytes → Disk × ℤ → Disk × Option Identity
  unfolding gs_new
  after_init connects keydir (disk, ret) =
      (disk, if is_ok ret then gs_new connects disk keydir else none)

  unfoldable pub first_client : Bool → Disk → Bytes → Option Identity → Disk × Option Identity
  unfolding after_init gs_conf_init
  first_client connects disk keydir (some client) = (disk, some client)
  first_client connects disk keydir none = after_init connects keydir (gs_conf_init disk keydir)

  unfoldable pub create_client : Bool → Disk → Bytes → Disk × Option Identity
  unfolding gs_new first_client
  create_client connects disk keydir =
      first_client connects disk keydir (gs_new connects disk keydir)
