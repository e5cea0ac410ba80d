-- ===== src/AppMenu/Turns.antt =====
-- src/main.c: `main_menu`, one round of the loop after the other.
use moonlight_wii.Prelude.{ℕ, Bool, true, false, ◌||◌, List, [], ◌∷◌, ◌++◌, ◌==◌, if◌then◌else◌}
use moonlight_wii.Prelude.Int.{ℤ, pos, negsuc}

-- What `main_menu` calls, in order: `connect` and `address` with their success, `pair` and `unpair` with
-- `server->paired` afterwards.
pub data Call : Type 0 where
  address : Bool → Call
  connect : Bool → Call
  stream : Call
  pair : Bool → Call
  unpair : Bool → Call
  settings : Call
  disconnect : Call
  stop : Call

-- `connected`, `server->paired`, whether `config->address` is not NULL, and `wii_proc_running`.
pub record MenuState : Type 0 where
  pub connected : Bool
  pub paired : Bool
  pub has_address : Bool
  pub running : Bool

-- What a round meets: the selection, whether an address is entered, whether the host is reached and
-- then has this client paired, and whether it is paired behind `do_pair` or `do_unpair`.
pub record Turn : Type 0 where
  pub sel : ℤ
  pub enters : Bool
  pub reaches : Bool
  pub found_paired : Bool
  pub paired_after : Bool

-- The selection in the menu of a connected client.
unfoldable pub connected_turn : ℕ → Turn → MenuState → List Call × MenuState
connected_turn sel t m =
    if sel == 0
    then (stream ∷ [], m)
    else if sel == 1
    then (
      (if m.paired then unpair t.paired_after else pair t.paired_after) ∷ [],
      record m { paired = t.paired_after },
    )
    else if sel == 2
    then (settings ∷ [], m)
    else if sel == 3
    then (address t.enters ∷ [], record m { has_address = m.has_address || t.enters })
    else if sel == 4
    then (disconnect ∷ [], record m { connected = false })
    else if sel == 5
    then (stop ∷ [], record m { running = false })
    else ([], m)

-- `connect_server`, and the stream that may follow it.
unfoldable pub connect_turn : Bool → Turn → MenuState → List Call × MenuState
connect_turn autostream t m =
    if t.reaches
    then (
      connect true ∷ (if autostream then stream ∷ [] else []),
      record m { connected = true; paired = t.found_paired },
    )
    else (connect false ∷ [], m)

abbrev before : Call → List Call × MenuState → List Call × MenuState
before call r = (call ∷ r.0, r.1)

-- The selection in the menu of a disconnected client.
unfoldable pub disconnected_turn : Bool → ℕ → Turn → MenuState → List Call × MenuState
unfolding connect_turn
disconnected_turn autostream sel t m =
    if sel == 0
    then if m.has_address
      then connect_turn autostream t m
      else if t.enters
      then before (address true) (connect_turn autostream t (record m { has_address = true }))
      else (address false ∷ [], m)
    else if sel == 1
    then (address t.enters ∷ [], record m { has_address = m.has_address || t.enters })
    else if sel == 2
    then (settings ∷ [], m)
    else if sel == 3
    then (stop ∷ [], record m { running = false })
    else ([], m)

-- The switch that the selection leads to; -1 leads to none.
unfoldable pub selected : Bool → ℤ → Turn → MenuState → List Call × MenuState
unfolding connected_turn disconnected_turn
selected autostream (negsuc n) t m = ([], m)
selected autostream (pos sel) t m =
    if m.connected then connected_turn sel t m else disconnected_turn autostream sel t m

abbrev pub turn : Bool → Turn → MenuState → List Call × MenuState
turn autostream t m = selected autostream t.sel t m

-- The calls of the loop.
unfoldable pub main_menu : Bool → List Turn → MenuState → List Call
unfolding selected
main_menu autostream [] m = []
main_menu autostream (t ∷ turns) m =
    let r = turn autostream t m in
    let rest = main_menu autostream turns r.1 in if m.running then r.0 ++ rest else []
