-- ===== src/AppMenu/Order.antt =====
-- src/main.c: the order in which `main_menu` calls the others.
use moonlight_wii.Prelude.{
  ℕ, ◌≡◌, refl, Bool, true, false, List, [], ◌∷◌, ◌++◌, ◌==◌, if◌then◌else◌, Bool-cases, inl, inr,
}
use moonlight_wii.Prelude.Int.{ℤ, pos, negsuc}
use moonlight_wii.AppMenu.Turns.{
  Call, address, connect, stream, pair, unpair, settings, disconnect, stop, MenuState, Turn,
  connected_turn, connect_turn, disconnected_turn, selected, turn, main_menu,
}

-- Calls in a permitted order, for a host that is connected or not, and paired or not: only a connected
-- host is streamed from, paired, unpaired or left, only an unpaired one is paired, and only a paired one
-- unpaired; nothing is called after the end.
pub data Proper : Bool → Bool → List Call → Type 0 where
  done : (c p : Bool) → Proper c p []
  stops : (c p : Bool) → Proper c p (stop ∷ [])
  addressed : (c p r : Bool) (calls : List Call) → Proper c p calls → Proper c p (address r ∷ calls)
  set : (c p : Bool) (calls : List Call) → Proper c p calls → Proper c p (settings ∷ calls)
  reached :
      (p q : Bool) (calls : List Call) → Proper true q calls → Proper false p (connect true ∷ calls)
  unreached :
      (p : Bool) (calls : List Call) → Proper false p calls → Proper false p (connect false ∷ calls)
  streams : (p : Bool) (calls : List Call) → Proper true p calls → Proper true p (stream ∷ calls)
  pairs : (q : Bool) (calls : List Call) → Proper true q calls → Proper true false (pair q ∷ calls)
  unpairs :
      (q : Bool) (calls : List Call) → Proper true q calls → Proper true true (unpair q ∷ calls)
  leaves :
      (p : Bool) (calls : List Call) → Proper false p calls → Proper true p (disconnect ∷ calls)

-- What may follow a round.
record Follows (m : MenuState) (calls : List Call) : Type 0 where
  proper : Proper m.connected m.paired calls
  ended : m.running ≡ false → calls ≡ []

-- A Boolean that is known.
cast : (b c p : Bool) (k : List Call) → c ≡ b → Proper c p k → Proper b p k
cast true true p k e h = h
cast true false p k e h = cc
cast false true p k e h = cc
cast false false p k e h = h

abbrev Good : Bool → Bool → List Call → List Call × MenuState → Type 0
Good c p k r = Follows r.1 k → Proper c p (r.0 ++ k)

stop_proper : (c p : Bool) (k : List Call) → k ≡ [] → Proper c p (stop ∷ k)
stop_proper c p k e = rw e (stops c p)

pairing_proper :
    (p q : Bool) (k : List Call)
    → Proper true q k
    → Proper true p ((if p then unpair q else pair q) ∷ k)
pairing_proper true q k h = unpairs q k h
pairing_proper false q k h = pairs q k h

connected_turn-Proper :
    (sel : ℕ) (t : Turn) (m : MenuState) (k : List Call)
    → m.connected ≡ true
    → Good true m.paired k (connected_turn sel t m)
unfolding connected_turn
connected_turn-Proper sel t m k on = elim (Bool-cases (sel == 0)) [
  | inl a ↦ rw (connected_turn, a) (λ f. streams m.paired k (cast true _ _ k on f.proper))
  | inr a ↦ elim (Bool-cases (sel == 1)) [
    | inl b ↦
        rw (connected_turn, a, b)
          (λ f. pairing_proper m.paired t.paired_after k (cast true _ _ k on f.proper))
    | inr b ↦ elim (Bool-cases (sel == 2)) [
      | inl c ↦
          rw (connected_turn, a, b, c) (λ f. set true m.paired k (cast true _ _ k on f.proper))
      | inr c ↦ elim (Bool-cases (sel == 3)) [
        | inl d ↦
            rw (connected_turn, a, b, c, d)
              (λ f. addressed true m.paired t.enters k (cast true _ _ k on f.proper))
        | inr d ↦ elim (Bool-cases (sel == 4)) [
          | inl e ↦ rw (connected_turn, a, b, c, d, e) (λ f. leaves m.paired k f.proper)
          | inr e ↦ elim (Bool-cases (sel == 5)) [
            | inl g ↦
                rw (connected_turn, a, b, c, d, e, g)
                  (λ f. stop_proper true m.paired k (f.ended refl))
            | inr g ↦ rw (connected_turn, a, b, c, d, e, g) (λ f. cast true _ _ k on f.proper)
          ]
        ]
      ]
    ]
  ]
]

connect_turn-Proper :
    (autostream : Bool) (t : Turn) (m : MenuState) (k : List Call)
    → m.connected ≡ false
    → Good false m.paired k (connect_turn autostream t m)
unfolding connect_turn
connect_turn-Proper autostream t m k off = elim (Bool-cases t.reaches) [
  | inl a ↦ elim (Bool-cases autostream) [
    | inl b ↦
        rw (connect_turn, a, b)
          (λ f. reached m.paired t.found_paired (stream ∷ k) (streams t.found_paired k f.proper))
    | inr b ↦ rw (connect_turn, a, b) (λ f. reached m.paired t.found_paired k f.proper)
  ]
  | inr a ↦ rw (connect_turn, a) (λ f. unreached m.paired k (cast false _ _ k off f.proper))
]

disconnected_turn-Proper :
    (autostream : Bool) (sel : ℕ) (t : Turn) (m : MenuState) (k : List Call)
    → m.connected ≡ false
    → Good false m.paired k (disconnected_turn autostream sel t m)
unfolding disconnected_turn
disconnected_turn-Proper autostream sel t m k off = elim (Bool-cases (sel == 0)) [
  | inl a ↦ elim (Bool-cases m.has_address) [
    | inl b ↦
        rw (disconnected_turn, a, b)
          (connect_turn-Proper autostream t (record m { has_address = true }) k off)
    | inr b ↦ elim (Bool-cases t.enters) [
      | inl c ↦
          rw (disconnected_turn, a, b, c)
            (λ f.
              addressed false m.paired true _
                (connect_turn-Proper autostream t (record m { has_address = true }) k off f))
      | inr c ↦
          rw (disconnected_turn, a, b, c)
            (λ f. addressed false m.paired false k (cast false _ _ k off f.proper))
    ]
  ]
  | inr a ↦ elim (Bool-cases (sel == 1)) [
    | inl b ↦
        rw (disconnected_turn, a, b)
          (λ f. addressed false m.paired t.enters k (cast false _ _ k off f.proper))
    | inr b ↦ elim (Bool-cases (sel == 2)) [
      | inl c ↦
          rw (disconnected_turn, a, b, c)
            (λ f. set false m.paired k (cast false _ _ k off f.proper))
      | inr c ↦ elim (Bool-cases (sel == 3)) [
        | inl d ↦
            rw (disconnected_turn, a, b, c, d) (λ f. stop_proper false m.paired k (f.ended refl))
        | inr d ↦ rw (disconnected_turn, a, b, c, d) (λ f. cast false _ _ k off f.proper)
      ]
    ]
  ]
]

back : (b c p : Bool) (k : List Call) → c ≡ b → Proper b p k → Proper c p k
back true true p k e h = h
back true false p k e h = cc
back false true p k e h = cc
back false false p k e h = h

stopped_menu :
    (autostream : Bool) (turns : List Turn) (m : MenuState)
    → m.running ≡ false
    → main_menu autostream turns m ≡ []
unfolding main_menu
stopped_menu autostream [] m h = refl
stopped_menu autostream (t ∷ turns) m h = rw (main_menu, h) refl

if_Good :
    (b p : Bool) (k : List Call) (x y : List Call × MenuState)
    → (b ≡ true → Good true p k x)
    → (b ≡ false → Good false p k y)
    → Good b p k (if b then x else y)
if_Good true p k x y hx hy = hx refl
if_Good false p k x y hx hy = hy refl

if_Proper :
    (b c p : Bool) (calls : List Call) → Proper c p calls → Proper c p (if b then calls else [])
if_Proper true c p calls h = h
if_Proper false c p calls h = done c p

selected-Proper :
    (autostream : Bool) (sel : ℤ) (t : Turn) (m : MenuState) (k : List Call)
    → Good m.connected m.paired k (selected autostream sel t m)
unfolding selected
selected-Proper autostream (negsuc n) t m k = λ f. f.proper
selected-Proper autostream (pos sel) t m k =
    if_Good m.connected m.paired k (connected_turn sel t m) (disconnected_turn autostream sel t m)
      (connected_turn-Proper sel t m k) (disconnected_turn-Proper autostream sel t m k)

-- Whatever is selected and however the calls end, `main_menu` streams, pairs, unpairs and disconnects only
-- with a host that was reached and not left since, pairs only an unpaired and unpairs only a paired one,
-- connects only while disconnected, and calls nothing after the end.
pub main_menu-Proper :
    (autostream : Bool) (turns : List Turn) (m : MenuState)
    → Proper m.connected m.paired (main_menu autostream turns m)
unfolding main_menu
main_menu-Proper autostream [] m = done m.connected m.paired
main_menu-Proper autostream (t ∷ turns) m =
    let r = turn autostream t m in
    if_Proper m.running m.connected m.paired (r.0 ++ main_menu autostream turns r.1) (
      selected-Proper autostream t.sel t m (main_menu autostream turns r.1) (record {
        proper = main_menu-Proper autostream turns r.1;
        ended = stopped_menu autostream turns r.1;
      }))
