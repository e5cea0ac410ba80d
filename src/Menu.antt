-- ===== src/Menu.antt =====
-- src/wii/menu.c: lists to select from, and the entry of a text with the D-pad. Drawing is left out; a
-- round of a loop meets the end of the program, a wish for the main menu, or the buttons pressed.
pub mod Laws
pub mod Texts
pub mod Entries
mod Tests
use moonlight_wii.Prelude.{
  ℕ, zero, suc, ◌+◌, ◌-◌, ◌%◌, Bool, ◌||◌, Option, none, some, List, [], ◌∷◌, ◌++◌, ◌==◌, ltb, leb,
  if◌then◌else◌, length, take, get_or, set, replicate,
}
use moonlight_wii.Prelude.Int.{ℤ, pos, negsuc, ◌-ℤ◌}
use moonlight_wii.Prelude.Text.{Bytes, codes, c_string}
use moonlight_wii.Prelude.Decimal.{print_int, atoi}

-- The bits of `wii_input_buttons_triggered` that the menus test.
pub record Buttons : Type 0 where
  pub a : Bool
  pub b : Bool
  pub up : Bool
  pub down : Bool
  pub left : Bool
  pub right : Bool

-- What a round of a loop meets, in the order in which it asks.
pub data Round : Type 0 where
  stopped : Round
  main_menu : Round
  pressed : Buttons → Round

-- sel < 0 and sel >= count, for a count that is not 0.
unfoldable pub clamp : ℕ → ℤ → ℕ
clamp count (pos n) = if leb count n then count - 1 else n
clamp count (negsuc n) = 0

-- The loop of `menu_select`; `none` while it goes on.
unfoldable pub select_loop : ℕ → List Round → ℤ → Option ℤ
unfolding clamp ◌-ℤ◌
select_loop count [] sel = none
select_loop count (stopped ∷ rounds) sel = some (negsuc 0)
select_loop count (main_menu ∷ rounds) sel = some (negsuc 0)
select_loop count (pressed btns ∷ rounds) sel =
    let s = clamp count sel in
    let rest =
      select_loop count rounds
        (if btns.down then pos (suc s) else if btns.up then pos s -ℤ pos 1 else pos s) in
    if btns.a then some (pos s) else if btns.b then some (negsuc 0) else rest

unfoldable pub menu_select : ℕ → ℤ → List Round → Option ℤ
unfolding select_loop
menu_select count sel rounds = if count == 0 then some (negsuc 0) else select_loop count rounds sel

-- An `int` that is -1, or 0 or 1.
unfoldable pub menu_select_bool : Bool → List Round → Option ℤ
unfolding menu_select
menu_select_bool initial rounds = elim (menu_select 2 (if initial then pos 0 else pos 1) rounds) [
  | none ↦ none
  | some (negsuc n) ↦ some (negsuc 0)
  | some (pos r) ↦ some (if r == 0 then pos 1 else pos 0)
]

-- The loop of `charset_index` from position `i` on.
unfoldable pub index_from : ℕ → Bytes → ℕ → ℕ
index_from i [] c = 0
index_from i (d ∷ ds) c = let rest = index_from (suc i) ds c in if d == c then i else rest

abbrev pub charset_index : Bytes → ℕ → ℕ
charset_index charset c = index_from 0 charset c

-- The locals of `menu_input_string`; the array has 256 characters.
pub record Input : Type 0 where
  pub buf : Bytes
  pub len : ℕ
  pub at : ℕ
  pub sel : ℕ

-- `extend_to`, for as many rounds as are left.
unfoldable pub extend : ℕ → ℕ → Input → Input
extend zero c i = i
extend (suc rounds) c i = extend rounds c (record i { buf = set i.buf i.len c; len = suc i.len })

unfoldable pub extend_to : Bytes → Input → Input
unfolding extend
extend_to charset i = extend (suc i.at - i.len) (get_or charset 0 0) i

-- The assignment to `buf[pos]` behind a change of `sel`.
unfoldable pub put_char : Bytes → ℕ → Input → Input
unfolding extend_to
put_char charset sel i =
    let e = extend_to charset (record i { sel = sel }) in
    record e { buf = set e.buf e.at (get_or charset sel 0) }

abbrev pub at_most : ℕ → ℕ → ℕ
at_most bound n = if ltb bound n then bound else n

-- The clamps at the beginning of a round; neither number is ever negative.
unfoldable pub clamp_input : Bytes → ℕ → Input → Input
clamp_input charset maxlen i = record i {
  at = at_most (maxlen - 1) i.at;
  sel = at_most (length charset - 1) i.sel;
}

-- The buttons of the D-pad.
unfoldable pub move : Bytes → ℕ → Buttons → Input → Input
unfolding put_char index_from
move charset maxlen btns i =
    if btns.up
    then put_char charset ((i.sel + length charset - 1) % length charset) i
    else if btns.down
    then put_char charset ((i.sel + 1) % length charset) i
    else if btns.left
    then if ltb 0 i.at
      then record i { at = i.at - 1; sel = charset_index charset (get_or i.buf (i.at - 1) 0) }
      else i
    else if btns.right
    then if ltb i.at (maxlen - 1)
      then record i {
        at = i.at + 1;
        sel = if leb i.len (i.at + 1) then 0 else charset_index charset (get_or i.buf (i.at + 1) 0);
      }
      else i
    else i

-- What becomes of the entry of a text: it is left, or `out` holds a text.
pub data Entered : Type 0 where
  waiting : Entered
  cancelled : Entered
  entered : Bytes → Entered

-- `out`, as the text up to its NUL.
unfoldable pub output : ℕ → Input → Bytes
unfolding c_string
output maxlen i = c_string (take maxlen (set i.buf i.len 0))

unfoldable pub input_loop : Bytes → ℕ → List Round → Input → Entered
unfolding clamp_input move output
input_loop charset maxlen [] i = waiting
input_loop charset maxlen (stopped ∷ rounds) i = cancelled
input_loop charset maxlen (main_menu ∷ rounds) i = cancelled
input_loop charset maxlen (pressed btns ∷ rounds) i =
    let j = clamp_input charset maxlen i in
    let rest = input_loop charset maxlen rounds (move charset maxlen btns j) in
    if btns.a then entered (output maxlen j) else if btns.b then cancelled else rest

-- memset, and strncpy of at most `maxlen` characters.
unfoldable pub start_input : Bytes → ℕ → Bytes → Input
unfolding index_from
start_input charset maxlen initial =
    let text = take maxlen initial in
    record {
      buf = text ++ replicate (256 - length text) 0;
      len = length text;
      at = 0;
      sel = charset_index charset (get_or (text ++ replicate (256 - length text) 0) 0 0);
    }

-- An empty `initial` stands for NULL too.
unfoldable pub menu_input_string : Bytes → ℕ → Bytes → List Round → Entered
unfolding input_loop start_input
menu_input_string charset maxlen initial rounds =
    if length charset == 0 || maxlen == 0 || leb 256 maxlen
    then cancelled
    else input_loop charset maxlen rounds (start_input charset maxlen initial)

abbrev pub not_negative : ℤ → ℤ
not_negative (pos n) = pos n
not_negative (negsuc n) = pos 0

-- -1 where the entry is left.
unfoldable pub menu_input_int : ℤ → List Round → Option ℤ
unfolding menu_input_string print_int atoi
menu_input_int initial rounds =
    elim (menu_input_string (codes "0123456789") 15 (print_int (not_negative initial)) rounds) [
      | waiting ↦ none
      | cancelled ↦ some (negsuc 0)
      | entered out ↦ some (not_negative (atoi out))
    ]
