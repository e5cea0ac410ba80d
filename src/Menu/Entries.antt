-- ===== src/Menu/Entries.antt =====
-- src/wii/menu.c: what `menu_input_string` can return.
use moonlight_wii.Prelude.{
  ℕ, zero, suc, ◌+◌, ◌-◌, ◌≤◌, ◌<◌, ◌≡◌, ◌∙◌, List, [], ◌∷◌, ◌==◌, ◌||◌, ltb, leb, length,
  length-append, length-set, length-take, length-replicate, take, set, replicate, get_or, arith,
  Bool-cases, inl, inr,
}
use native.Mathlib.Nat.{mod-lt}
use moonlight_wii.Prelude.Text.{Bytes}
use moonlight_wii.Menu.{
  Buttons, Round, stopped, main_menu, pressed, Input, extend, extend_to, put_char, clamp_input,
  move, Entered, waiting, cancelled, entered, output, input_loop, start_input, menu_input_string,
}
use moonlight_wii.Menu.Texts.{
  All, All-get_or, All-take, All-take_write, All-take_next, All-c_string, All-append,
  length-c_string,
}

-- The array keeps its size, and what is entered of it stays below `maxlen` and has the property.
pub record IsInput (P : ℕ → Type 0) (maxlen : ℕ) (i : Input) : Type 0 where
  pub size : length i.buf ≡ 256
  pub bound : i.len ≤ maxlen
  pub text : All P (take i.len i.buf)

-- The text that is entered, if any.
unfoldable pub Gives : (Bytes → Type 0) → Entered → Type 0
Gives Q waiting = Unit
Gives Q cancelled = Unit
Gives Q (entered out) = Q out

module _ (P : ℕ → Type 0) (charset : Bytes) (maxlen : ℕ) (ok : All P charset)
    (some_char : 0 < length charset) (some_room : 0 < maxlen) where
  extend-IsInput :
      (rounds : ℕ) (c : ℕ) (i : Input)
      → P c
      → i.len + rounds ≤ maxlen
      → IsInput P maxlen i
      → IsInput P maxlen (extend rounds c i)
  unfolding extend
  extend-IsInput zero c i p h v = v
  extend-IsInput (suc rounds) c i p h v = extend-IsInput rounds c _ p (omega arith) (record {
    size = length-set i.buf i.len c ∙ v.size;
    bound = omega arith;
    text = All-take_next P i.len c i.buf p v.text;
  })

  put_char-IsInput :
      (sel : ℕ) (i : Input)
      → sel < length charset
      → i.at < maxlen
      → IsInput P maxlen i
      → IsInput P maxlen (put_char charset sel i)
  unfolding put_char extend_to
  put_char-IsInput sel i h k v =
      let e =
        extend-IsInput (suc i.at - i.len) (get_or charset 0 0) (record i { sel = sel })
          (All-get_or P charset 0 some_char ok) (omega arith)
          (record { size = v.size; bound = v.bound; text = v.text }) in
      record {
        size = length-set _ _ (get_or charset sel 0) ∙ e.size;
        bound = e.bound;
        text = All-take_write P _ _ (get_or charset sel 0) _ (All-get_or P charset sel h ok) e.text;
      }

  -- Moving the cursor leaves the text alone.
  moved :
      (at sel : ℕ) (i : Input)
      → IsInput P maxlen i
      → IsInput P maxlen (record i { at = at; sel = sel })
  moved at sel i v = record { size = v.size; bound = v.bound; text = v.text }

  move-IsInput :
      (btns : Buttons) (i : Input)
      → i.at < maxlen
      → IsInput P maxlen i
      → IsInput P maxlen (move charset maxlen btns i)
  unfolding move
  move-IsInput btns i k v = elim (Bool-cases btns.up) [
    | inl u ↦ rw (move, u) (put_char-IsInput _ i (mod-lt _ some_char) k v)
    | inr u ↦ elim (Bool-cases btns.down) [
      | inl d ↦ rw (move, u, d) (put_char-IsInput _ i (mod-lt _ some_char) k v)
      | inr d ↦ elim (Bool-cases btns.left) [
        | inl l ↦ elim (Bool-cases (ltb 0 i.at)) [
          | inl z ↦ rw (move, u, d, l, z) (moved _ _ i v)
          | inr z ↦ rw (move, u, d, l, z) v
        ]
        | inr l ↦ elim (Bool-cases btns.right) [
          | inl r ↦ elim (Bool-cases (ltb i.at (maxlen - 1))) [
            | inl z ↦ rw (move, u, d, l, r, z) (moved _ _ i v)
            | inr z ↦ rw (move, u, d, l, r, z) v
          ]
          | inr r ↦ rw (move, u, d, l, r) v
        ]
      ]
    ]
  ]

  -- A text that was entered: how long it is, and what it consists of.
  abbrev Fine : Bytes → Type 0
  Fine out = (length out ≤ maxlen) × All P out

  output-Fine : (i : Input) → IsInput P maxlen i → Fine (output maxlen i)
  unfolding output
  output-Fine i v = (
    omega (
      arith,
      length-c_string (take maxlen (set i.buf i.len 0)),
      length-take maxlen (set i.buf i.len 0),
    ),
    All-c_string P maxlen i.len i.buf v.bound v.text,
  )

  clamped_lt : (i : Input) → (clamp_input charset maxlen i).at < maxlen
  unfolding clamp_input
  clamped_lt i = ground arith

  clamp_input-IsInput :
      (i : Input) → IsInput P maxlen i → IsInput P maxlen (clamp_input charset maxlen i)
  unfolding clamp_input
  clamp_input-IsInput i v = moved _ _ i v

  input_loop-Fine :
      (rounds : List Round) (i : Input)
      → IsInput P maxlen i
      → Gives Fine (input_loop charset maxlen rounds i)
  unfolding input_loop Gives
  input_loop-Fine [] i v = tt
  input_loop-Fine (stopped ∷ rounds) i v = tt
  input_loop-Fine (main_menu ∷ rounds) i v = tt
  input_loop-Fine (pressed btns ∷ rounds) i v =
      let w = clamp_input-IsInput i v in
      elim (Bool-cases btns.a) [
        | inl a ↦ rw (input_loop, a) (output-Fine _ w)
        | inr a ↦ elim (Bool-cases btns.b) [
          | inl b ↦ rw (input_loop, a, b) tt
          | inr b ↦
              rw (input_loop, a, b)
                (input_loop-Fine rounds _ (move-IsInput btns _ (clamped_lt i) w))
        ]
      ]

  start_input-IsInput :
      (initial : Bytes)
      → maxlen < 256
      → All P initial
      → IsInput P maxlen (start_input charset maxlen initial)
  unfolding start_input
  start_input-IsInput initial h a =
      let text = take maxlen initial in
      record {
        size =
            length-append text (replicate (256 - length text) 0)
            ∙ omega
                (arith, length-replicate {A = ℕ} (256 - length text) 0, length-take maxlen initial);
        bound = omega (arith, length-take maxlen initial);
        text = All-append P text (replicate (256 - length text) 0) (All-take P maxlen initial a);
      }

-- Whatever is pressed, a text that `menu_input_string` stores is no longer than `maxlen`, so that it fits
-- its buffer, and has only characters of the set or of the initial text: each has any property that
-- they all have.
pub menu_input_string-Fine :
    (P : ℕ → Type 0) (charset : Bytes) (maxlen : ℕ) (initial : Bytes) (rounds : List Round)
    → All P charset
    → All P initial
    → Gives
        (λ out. (length out ≤ maxlen) × All P out)
        (menu_input_string charset maxlen initial rounds)
unfolding menu_input_string Gives
menu_input_string-Fine P charset maxlen initial rounds c a =
    elim (Bool-cases (length charset == 0 || maxlen == 0 || leb 256 maxlen)) [
      | inl e ↦ rw (menu_input_string, e) tt
      | inr e ↦
          rw (menu_input_string, e)
            (input_loop-Fine P charset maxlen c (ground arith) (ground arith) rounds _ (
              start_input-IsInput P charset maxlen c (ground arith) (ground arith) initial
                (ground arith) a))
    ]
