-- ===== src/Address.antt =====
-- src/main.c: `enter_address` and the pointer to the address that `connect_server` hands on. Memory is
-- made of blocks that have a number each: a block that was freed stays free. strdup finds memory.
pub mod Owner
pub mod Restart
mod Tests
use moonlight_wii.Prelude.{
  ℕ, zero, suc, ◌+◌, Bool, true, false, Option, none, some, List, [], ◌∷◌, ◌==◌, ◌||◌,
  if◌then◌else◌, length, take, get_or,
}
use moonlight_wii.Prelude.Text.{Bytes, codes}
use moonlight_wii.Config.{Configuration}
use moonlight_wii.Config.Save.{config_save}
use moonlight_wii.Menu.{Round, Entered, waiting, cancelled, entered, menu_input_string}

-- The configuration but for its address, the file that was saved, the blocks and the number of the next
-- one, and two pointers: `config->address` and `server->serverInfo.address`.
pub record Front : Type 0 where
  pub settings : Configuration
  pub file : Bytes
  pub blocks : ℕ → Option Bytes
  pub next : ℕ
  pub address : Option ℕ
  pub server : Option ℕ

-- The text behind a pointer; `none` for NULL, and for a block that was freed.
unfoldable pub deref : Front → Option ℕ → Option Bytes
deref f none = none
deref f (some p) = f.blocks p

unfoldable pub free : Option ℕ → Front → Front
free none f = f
free (some p) f = record f { blocks = λ q. if q == p then none else f.blocks q }

-- config->address = strdup(text)
unfoldable pub strdup_address : Bytes → Front → Front
strdup_address text f = record f {
  blocks = λ q. if q == f.next then some text else f.blocks q;
  next = f.next + 1;
  address = some f.next;
}

unfoldable pub save_config : Front → Front
unfolding deref
save_config f = record f { file = config_save (record f.settings { address = deref f f.address }) }

-- The loop that takes dots and spaces from the end of the first `n` characters.
unfoldable pub trim_end : ℕ → Bytes → Bytes
trim_end zero s = []
trim_end (suc n) s =
    let rest = trim_end n s in
    if get_or s n 0 == b'.' || get_or s n 0 == b' ' then rest else take (suc n) s

-- What is behind the trimming.
unfoldable pub store_address : Bytes → Front → Bool × Front
unfolding free strdup_address save_config
store_address [] f = (false, f)
store_address (c ∷ s) f = (true, save_config (strdup_address (c ∷ s) (free f.address f)))

abbrev pub or_empty : Option Bytes → Bytes
or_empty none = []
or_empty (some s) = s

-- What becomes of an entry; `none` while the menu waits.
unfoldable pub after_entry : Entered → Front → Option (Bool × Front)
unfolding trim_end store_address
after_entry waiting f = none
after_entry cancelled f = some (false, f)
after_entry (entered out) f = some (store_address (trim_end (length out) out) f)

unfoldable pub enter_address : List Round → Front → Option (Bool × Front)
unfolding deref after_entry
enter_address rounds f =
    after_entry (menu_input_string (codes "0123456789.") 15 (or_empty (deref f f.address)) rounds) f

-- gs_get_status(client, server, config->address, ...) keeps the pointer.
unfoldable pub connect_server : Front → Front
connect_server f = record f { server = f.address }
