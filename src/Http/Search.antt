-- ===== src/Http/Search.antt =====
-- libgamestream/http.c: what strstr finds in a text that has arrived in part.
use moonlight_wii.Prelude.{
  ℕ, suc, ◌≤◌, ◌≡◌, refl, sym, ap, ap₂, ◌∙◌, ◌⊎◌, inl, inr, Bool, true, false, ◌&&◌, ◌||◌, none,
  some, [], ◌∷◌, ◌++◌, append_assoc, ◌==◌, length, length-append, arith,
}
use moonlight_wii.Prelude.Text.{c_string, Bytes, codes, is_prefix, contains}
use moonlight_wii.Http.RoundTrip.{lacks}
use moonlight_wii.Http.Response.{find, crlf2}

-- The blank line but for its last character.
abbrev pub almost : Bytes
almost = codes "\r\n\r"

pub c_string-append : (s t : Bytes) → lacks 0 s ≡ true → c_string (s ++ t) ≡ s ++ c_string t
unfolding c_string lacks
c_string-append [] t h = refl
c_string-append (c ∷ s) t h = ground (arith, c_string-append s t)

pub lacks-prefix : (c : ℕ) (s t : Bytes) → lacks c (s ++ t) ≡ true → lacks c s ≡ true
unfolding lacks
lacks-prefix c [] t h = refl
lacks-prefix c (d ∷ s) t h = ground (arith, lacks-prefix c s t)

pub c_string-lacks : (s : Bytes) → lacks 0 s ≡ true → c_string s ≡ s
unfolding c_string lacks
c_string-lacks [] h = refl
c_string-lacks (c ∷ s) h = ground (arith, c_string-lacks s)

is_prefix-append : (s t r : Bytes) → is_prefix s (t ++ r) ≡ false → is_prefix s t ≡ false
unfolding is_prefix
is_prefix-append [] t r h = h
is_prefix-append (c ∷ s) [] r h = refl
is_prefix-append (c ∷ s) (d ∷ t) r h = ground (arith, is_prefix-append s t r)

is_prefix-append_long : (s t r : Bytes) → length s ≤ length t → is_prefix s (t ++ r) ≡ is_prefix s t
unfolding is_prefix
is_prefix-append_long [] t r h = refl
is_prefix-append_long (c ∷ s) [] r h = elim h [ ]
is_prefix-append_long (c ∷ s) (d ∷ t) r h =
    ap (λ b. c == d && b) (is_prefix-append_long s t r (omega arith))

or-false : (a b : Bool) → a || b ≡ false → (a ≡ false) × (b ≡ false)
or-false true b h = cc
or-false false b h = (refl, h)

find-skip :
    (pattern : Bytes) (c : ℕ) (s : Bytes)
    → is_prefix pattern (c ∷ s) ≡ false
    → find pattern (c ∷ s) ≡ elim (find pattern s) [ none ↦ none | some i ↦ some (suc i) ]
unfolding find
find-skip pattern c s h = rw (find, h) refl

-- No occurrence in the text, nor in what it begins with.
pub find-append : (pattern t r : Bytes) → contains (t ++ r) pattern ≡ false → find pattern t ≡ none
unfolding contains
find-append pattern [] r h = unfold find in refl
find-append pattern (d ∷ t) r h =
    let (here, later) = or-false (is_prefix pattern (d ∷ (t ++ r))) (contains (t ++ r) pattern) h in
    find-skip pattern d t (is_prefix-append pattern (d ∷ t) r here)
    ∙ ap (λ o. elim o [ none ↦ none | some i ↦ some (suc i) ]) (find-append pattern t r later)

-- The first occurrence of the blank line is the one behind the head.
pub find-crlf2 :
    (head rest : Bytes)
    → contains (head ++ almost) crlf2 ≡ false
    → find crlf2 (head ++ (crlf2 ++ rest)) ≡ some (length head)
unfolding contains
find-crlf2 [] rest h = unfold find is_prefix in refl
find-crlf2 (c ∷ head) rest h =
    let (here, later) =
      or-false (is_prefix crlf2 (c ∷ (head ++ almost))) (contains (head ++ almost) crlf2) h in
    find-skip crlf2 c (head ++ (crlf2 ++ rest)) (
      ap (λ t. is_prefix crlf2 (c ∷ t)) (sym (append_assoc head almost (10 ∷ rest)))
      ∙ is_prefix-append_long crlf2 (c ∷ (head ++ almost)) (10 ∷ rest)
          (omega (arith, length-append head almost))
      ∙ here)
    ∙ ap (λ o. elim o [ none ↦ none | some i ↦ some (suc i) ]) (find-crlf2 head rest later)

pub cons-eq : (c d : ℕ) (s t : Bytes) → ◌≡◌ {A = Bytes} (c ∷ s) (d ∷ t) → (c ≡ d) × (s ≡ t)
cons-eq c d s t e = (cc, cc)

-- Where a text is split, against a given split.
pub record Inside (p s a b : Bytes) : Type 0 where
  pub more : Bytes
  pub at : p ≡ a ++ more
  pub left : more ++ s ≡ b

pub record Before (p a : Bytes) : Type 0 where
  pub more : Bytes
  pub at : p ++ more ≡ a

pub split-cases : (p s a b : Bytes) → p ++ s ≡ a ++ b → Before p a ⊎ Inside p s a b
split-cases [] s a b e = inl (record { more = a; at = refl })
split-cases (c ∷ p) s [] b e = inr (record { more = c ∷ p; at = refl; left = e })
split-cases (c ∷ p) s (d ∷ a) b e =
    let (h, t) = cons-eq c d (p ++ s) (a ++ b) e in
    elim (split-cases p s a b t) [
      | inl q ↦ inl (record { more = q.more; at = ap₂ (λ x y. x ∷ y) h q.at })
      | inr q ↦ inr (record { more = q.more; at = ap₂ (λ x y. x ∷ y) h q.at; left = q.left })
    ]
