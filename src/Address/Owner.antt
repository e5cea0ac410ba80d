-- ===== src/Address/Owner.antt =====
-- src/main.c: who owns the block of the address.
use moonlight_wii.Prelude.{
  ℕ, ◌≤◌, ◌<◌, ◌≡◌, ◌≢◌, refl, ap, ◌∙◌, Bool, true, Option, none, some, Option-cases, Bool-cases,
  inl, inr, List, [], ◌∷◌, ◌==◌, length, arith,
}
use mathlib.Core.Path.{subst}
use native.Mathlib.Decide.{dec_lt}
use moonlight_wii.Prelude.Text.{Bytes, codes}
use moonlight_wii.Menu.{Round, Entered, waiting, cancelled, entered, menu_input_string}
use moonlight_wii.Address.{
  Front, deref, free, strdup_address, save_config, trim_end, store_address, or_empty, after_entry,
  enter_address, connect_server,
}

-- The block of `config->address` is the only one that is live, and it is live.
pub record IsOwned (f : Front) : Type 0 where
  pub only : (q : ℕ) → f.blocks q ≢ none → f.address ≡ some q
  pub live : (q : ℕ) → f.address ≡ some q → f.blocks q ≢ none
  pub fresh : (q : ℕ) → f.next ≤ q → f.blocks q ≡ none

-- A block that is not the address's is not live.
dead : (f : Front) (q : ℕ) → IsOwned f → f.address ≢ some q → f.blocks q ≡ none
dead f q v other = elim (Option-cases (f.blocks q)) [
  | inl gone ↦ gone
  | inr (s, e) ↦ absurd (other (v.only q (λ gone. cc)))
]

free_all :
    (f : Front) (o : Option ℕ) (q : ℕ) → f.address ≡ o → IsOwned f → (free o f).blocks q ≡ none
unfolding free
free_all f none q e v = dead f q v (λ other. cc)
free_all f (some p) q e v = elim (Bool-cases (q == p)) [
  | inl same ↦ rw same refl
  | inr other ↦ rw other (dead f q v (λ at. ground arith))
]

next-free : (f : Front) (o : Option ℕ) → (free o f).next ≡ f.next
unfolding free
next-free f none = refl
next-free f (some p) = refl

-- A block in an empty memory is owned by the address that is stored with it.
strdup_address-IsOwned :
    (text : Bytes) (f : Front)
    → ((q : ℕ) → f.blocks q ≡ none)
    → IsOwned (save_config (strdup_address text f))
unfolding strdup_address save_config
strdup_address-IsOwned text f empty = record {
  only = λ q h. elim (Bool-cases (q == f.next)) [
    | inl same ↦ ground arith
    | inr other ↦ absurd (h (rw other (empty q)))
  ];
  live = λ q e. ground arith;
  fresh = λ q h. ground (arith, empty q);
}

store_address-IsOwned : (text : Bytes) (f : Front) → IsOwned f → IsOwned (store_address text f).1
unfolding store_address
store_address-IsOwned [] f v = v
store_address-IsOwned (c ∷ s) f v =
    strdup_address-IsOwned (c ∷ s) (free f.address f) (λ q. free_all f f.address q refl v)

after_entry-IsOwned :
    (x : Entered) (f g : Front) (done : Bool)
    → IsOwned f
    → after_entry x f ≡ some (done, g)
    → IsOwned g
unfolding after_entry
after_entry-IsOwned waiting f g done v e = cc
after_entry-IsOwned cancelled f g done v e = let same : f ≡ g = cc in subst IsOwned same v
after_entry-IsOwned (entered out) f g done v e =
    let text = trim_end (length out) out in
    let same : (store_address text f).1 ≡ g = cc in
    subst IsOwned same (store_address-IsOwned text f v)

-- Whatever is pressed, `enter_address` frees the block of the address that it replaces and no other, and
-- loses none: if before it the block of `config->address` was the only live one, so it is behind it.
pub enter_address-IsOwned :
    (rounds : List Round) (f g : Front) (done : Bool)
    → IsOwned f
    → enter_address rounds f ≡ some (done, g)
    → IsOwned g
unfolding enter_address
enter_address-IsOwned rounds f g done v e =
    after_entry-IsOwned
      (menu_input_string (codes "0123456789.") 15 (or_empty (deref f f.address)) rounds) f g done v
      e

owned_below : (f : Front) (p : ℕ) → IsOwned f → f.address ≡ some p → p < f.next
owned_below f p v e = elim (dec_lt p f.next) [
  | yes below ↦ below
  | no above ↦ absurd (v.live p e (v.fresh p (omega arith)))
]

server-free : (f : Front) (o : Option ℕ) → (free o f).server ≡ f.server
unfolding free
server-free f none = refl
server-free f (some p) = refl

freed :
    (f : Front) (p n : ℕ) (text : Bytes)
    → p < n
    → n ≡ f.next
    → (strdup_address text (free (some p) f)).blocks p ≡ none
unfolding strdup_address free
freed f p n text h e = ground arith

-- What `store_address` makes of the pointer that the server's data keep.
record Dangles (p : ℕ) (g : Front) : Type 0 where
  server : g.server ≡ some p
  gone : g.blocks p ≡ none

module _ (f : Front) (p : ℕ) (v : IsOwned f) (e : f.address ≡ some p) where
  store_address-Dangles :
      (text : Bytes) (g : Front) → store_address text (connect_server f) ≡ (true, g) → Dangles p g
  unfolding store_address connect_server save_config strdup_address
  store_address-Dangles [] g h = cc
  store_address-Dangles (c ∷ s) g h =
      let made = save_config (strdup_address (c ∷ s) (free f.address (connect_server f))) in
      let same : made ≡ g = ap (λ (x : Bool × Front). x.1) h in
      let d : Dangles p made = record {
        server = server-free (connect_server f) f.address ∙ e;
        gone = rw e (freed (connect_server f) p f.next (c ∷ s) (owned_below f p v e) refl);
      } in
      subst (Dangles p) same d

  after_entry-Dangles :
      (x : Entered) (g : Front) → after_entry x (connect_server f) ≡ some (true, g) → Dangles p g
  unfolding after_entry
  after_entry-Dangles waiting g h = cc
  after_entry-Dangles cancelled g h = cc
  after_entry-Dangles (entered out) g h = store_address-Dangles (trim_end (length out) out) g (cc)

  -- A client that is connected and has another address entered keeps the pointer to the address that it
  -- was connected with, whose block has been freed.
  pub enter_address-dangling :
      (rounds : List Round) (g : Front)
      → enter_address rounds (connect_server f) ≡ some (true, g)
      → (g.server ≡ some p) × (deref g g.server ≡ none)
  unfolding enter_address deref
  enter_address-dangling rounds g h =
      let d =
        after_entry-Dangles
          (menu_input_string (codes "0123456789.") 15
            (or_empty (deref (connect_server f) (connect_server f).address)) rounds)
          g h in
      (d.server, rw d.server d.gone)
