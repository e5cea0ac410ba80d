-- ===== src/Errors.antt =====
-- libgamestream/errors.h: the codes that the GameStream calls return. The texts that go with an error
-- (`gs_errmsg`) are not modelled. `negsuc n` is -(n + 1).
use moonlight_wii.Prelude.{zero, Bool, true, false, ◌==◌}
use moonlight_wii.Prelude.Int.{ℤ, pos, negsuc}

abbrev pub gs_ok : ℤ
gs_ok = pos 0

abbrev pub gs_failed : ℤ
gs_failed = negsuc 0

abbrev pub gs_out_of_memory : ℤ
gs_out_of_memory = negsuc 1

abbrev pub gs_invalid : ℤ
gs_invalid = negsuc 2

abbrev pub gs_wrong_state : ℤ
gs_wrong_state = negsuc 3

abbrev pub gs_io_error : ℤ
gs_io_error = negsuc 4

abbrev pub gs_not_supported_4k : ℤ
gs_not_supported_4k = negsuc 5

abbrev pub gs_unsupported_version : ℤ
gs_unsupported_version = negsuc 6

abbrev pub gs_not_supported_mode : ℤ
gs_not_supported_mode = negsuc 7

abbrev pub gs_error : ℤ
gs_error = negsuc 8

abbrev pub gs_not_supported_sops_resolution : ℤ
gs_not_supported_sops_resolution = negsuc 9

abbrev pub gs_bad_conf : ℤ
gs_bad_conf = negsuc 10

-- ret == GS_OK
abbrev pub is_ok : ℤ → Bool
is_ok (pos zero) = true
is_ok _ = false

-- ret == GS_ERROR
abbrev pub is_error : ℤ → Bool
is_error (negsuc n) = n == 8
is_error _ = false
